-- ===== src/Driver.antt =====
-- driver: the pixel strip (driver/pixel) and the display (driver/display).
pub mod Display
pub mod Pixel
