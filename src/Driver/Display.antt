-- ===== src/Driver/Display.antt =====
-- driver/display: what both panels share. The calls of ESP-IDF are recorded in the order in which they are
-- made; what one of them answers is a function of the calls before it and of itself.
pub mod St7735
pub mod St7789
pub mod Facade
pub mod Sequence
pub mod Region
pub mod PowerOn
pub mod Safety
use agcore.Prelude.{
  ℕ, ◌-◌, ◌*◌, List, [], ◌∷◌, ◌++◌, Option, none, some, Bool, true, false, ltb, ◌==◌, if◌then◌else◌,
  ◌||◌, bit_or, u32,
}
use agcore.Platform.{EspErr, esp_ok, invalid_state, is_ok}

-- The commands of esp_lcd_panel_commands.h that the drivers send, and those that they send by number.
pub data LcdCmd : Type 0 where
  swreset slpout noron invoff invon dispon caset raset ramwr madctl colmod : LcdCmd
  raw : ℕ → LcdCmd

-- The bits of LCD_CMD_MADCTL in the same header.
pub record MadctlBits : Type 0 where
  pub bgr : ℕ
  pub mv : ℕ
  pub mx : ℕ
  pub my : ℕ

pub data SpiHost : Type 0 where
  spi2_host spi3_host : SpiHost

-- The calls of ESP-IDF and FreeRTOS. A pixel is its 16-bit word. A pin is a number, or none where
-- the configuration has a negative one.
pub data Call : Type 0 where
  tx_param : LcdCmd → List ℕ → Call
  tx_color : LcdCmd → List ℕ → ℕ → Call
  gpio_config : ℕ → Call
  gpio_set_level : ℕ → Bool → Call
  spi_bus_initialize : SpiHost → Option ℕ → Option ℕ → ℕ → Call
  new_panel_io : SpiHost → Option ℕ → Option ℕ → ℕ → Bool → Call
  delay_ms : ℕ → Call
  heap_malloc heap_free task_create : Call

-- The settings of a panel in its Kconfig.
pub record PanelConfig : Type 0 where
  pub width : ℕ
  pub height : ℕ
  pub x_offset : ℕ
  pub y_offset : ℕ
  pub gpio_mosi : Option ℕ
  pub gpio_sclk : Option ℕ
  pub gpio_cs : Option ℕ
  pub gpio_dc : Option ℕ
  pub gpio_rst : Option ℕ
  pub gpio_backlight : Option ℕ
  pub backlight_active_high : Bool
  pub invert_color : Bool
  pub bgr_order : Bool
  pub spi_host : SpiHost
  pub pixel_clock_hz : ℕ
  pub bits : MadctlBits

-- The four directions by their numbers in the enumeration; a caller may pass another number.
abbrev pub rotation_0 : ℕ
rotation_0 = 0

abbrev pub rotation_90 : ℕ
rotation_90 = 1

abbrev pub rotation_180 : ℕ
rotation_180 = 2

abbrev pub rotation_270 : ℕ
rotation_270 = 3

-- The runtime: a callback by its address, and whether the handles exist.
pub record Runtime : Type 0 where
  pub width : ℕ
  pub height : ℕ
  pub rotation : ℕ
  pub initialized : Bool
  pub flush_done_cb : Option ℕ
  pub panel_io : Bool
  pub test_task : Bool

pub record Display : Type 0 where
  pub runtime : Runtime
  pub calls : List Call

abbrev pub runtime_init : PanelConfig → Runtime
runtime_init cfg = record {
  width = cfg.width;
  height = cfg.height;
  rotation = rotation_0;
  initialized = false;
  flush_done_cb = none;
  panel_io = false;
  test_task = false;
}

abbrev pub with_callback : Option ℕ → Display → Display
with_callback cb d = record d { runtime = record d.runtime { flush_done_cb = cb } }

-- What the hardware answers to a call after the calls before it.
abbrev pub Answers : Type 0
Answers = List Call → Call → EspErr

abbrev pub Act : Type 0
Act = Display → EspErr × Display

-- `if (ret != ESP_OK) return ret;` between two actions.
abbrev pub and_then : EspErr × Display → Act → EspErr × Display
and_then (ret, d) next = if is_ok ret then next d else (ret, d)

infixl 5 ◌>>◌
unfoldable pub ◌>>◌ : Act → Act → Act
◌>>◌ act next d = and_then (act d) next

unfoldable pub return_ok : Act
return_ok d = (esp_ok, d)

-- A call whose result the code does not look at.
unfoldable pub ignoring : Act → Act
ignoring act d = (esp_ok, (act d).1)

-- `#if PIN > GPIO_NUM_NC`: the preprocessor reads the enumerator as 0.
abbrev pub is_configured : Option ℕ → Bool
is_configured none = false
is_configured (some pin) = ltb 0 pin

-- `PIN <= GPIO_NUM_NC` in the code itself, where the enumerator is -1.
abbrev pub is_nc : Option ℕ → Bool
is_nc none = true
is_nc (some pin) = false

-- Code that `#if PIN > GPIO_NUM_NC` puts into the build.
unfoldable pub if_configured : Option ℕ → (ℕ → Act) → Act
if_configured none act = return_ok
if_configured (some pin) act = if is_configured (some pin) then act pin else return_ok

abbrev pub lacks_pin : PanelConfig → Bool
lacks_pin cfg =
    is_nc cfg.gpio_mosi || (is_nc cfg.gpio_sclk || (is_nc cfg.gpio_cs || is_nc cfg.gpio_dc))

abbrev pub is_turned : ℕ → Bool
is_turned rotation = (rotation == rotation_90) || (rotation == rotation_270)

-- `ret != ESP_OK && ret != ESP_ERR_INVALID_STATE` is an error.
abbrev pub unless_running : EspErr × Display → EspErr × Display
unless_running (ret, d) = (elim ret [ invalid_state ↦ esp_ok | other ↦ other ], d)

-- The bytes of a frame buffer of the configured size.
abbrev pub frame_bytes : PanelConfig → ℕ
frame_bytes cfg = u32 (cfg.width * cfg.height * 2)

module _ (answer : Answers) where
  unfoldable pub call : Call → Act
  call c d = (answer d.calls c, record d { calls = d.calls ++ c ∷ [] })
