-- ===== src/Tests/Display.antt =====
-- driver/display at concrete inputs.
use agcore.Prelude.{refl, [], ◌∷◌, some, none, true, false, arith}
use agcore.Platform.{esp_ok}
use agcore.Driver.Display.{PanelConfig, Display, Answers, spi2_host, rotation_90, runtime_init}
use agcore.Driver.Display.Facade.{st7735, st7789, driver_flush, driver_init}
use agcore.Driver.Display.Region.{IsFit}
use agcore.Driver.Display.Region.Flush.{Flushed, driver_flush-Flushed}
use agcore.Driver.Display.PowerOn.Start.{PowersOn, driver_init-power_on}
use agcore.Driver.Display.Safety.{IsSafe}
use agcore.Driver.Display.Safety.Reach.{here, next, init, display_start, display-Reaches-IsSafe}

abbrev cfg : PanelConfig
cfg = record {
  width = 170;
  height = 320;
  x_offset = 35;
  y_offset = 0;
  gpio_mosi = some 11;
  gpio_sclk = some 12;
  gpio_cs = some 10;
  gpio_dc = some 13;
  gpio_rst = some 14;
  gpio_backlight = some 9;
  backlight_active_high = true;
  invert_color = true;
  bgr_order = false;
  spi_host = spi2_host;
  pixel_clock_hz = 40000000;
  bits = record { bgr = 8; mv = 32; mx = 64; my = 128 };
}

cfg-IsFit : IsFit cfg
cfg-IsFit = record {
  width_x = omega arith;
  width_y = omega arith;
  height_x = omega arith;
  height_y = omega arith;
  wide = omega arith;
  high = omega arith;
  frame = omega arith;
}

abbrev all_ok : Answers
all_ok calls c = esp_ok

-- A panel that is turned by 90 degrees.
abbrev turned : Display
turned = record {
  runtime = record (runtime_init cfg) {
    width = 320;
    height = 170;
    rotation = rotation_90;
    initialized = true;
    panel_io = true;
  };
  calls = [];
}

driver_flush-Flushed_example :
    Flushed st7789 cfg turned 10 20 12 21
      (some (7 ∷ 8 ∷ []))
      (driver_flush cfg all_ok st7789 10 20 12 21 (some (7 ∷ 8 ∷ [])) turned)
driver_flush-Flushed_example =
    driver_flush-Flushed st7789 cfg all_ok turned 10 20 12 21 (some (7 ∷ 8 ∷ [])) cfg-IsFit
      (refl, refl)

driver_init-power_on_example :
    PowersOn st7735 cfg
      (some 3)
      (display_start cfg)
      (driver_init cfg all_ok st7735 (some 3) (display_start cfg))
driver_init-power_on_example =
    driver_init-power_on st7735 cfg all_ok (some 3) (display_start cfg) refl refl

abbrev after_init : Display
after_init = (driver_init cfg all_ok st7789 none (display_start cfg)).1

display-Reaches-IsSafe_example : IsSafe all_ok cfg after_init
display-Reaches-IsSafe_example =
    display-Reaches-IsSafe st7789 cfg all_ok (next here (init (display_start cfg) none))
