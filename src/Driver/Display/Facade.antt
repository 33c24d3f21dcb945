-- ===== src/Driver/Display/Facade.antt =====
-- driver/display/display_driver.c: the panel that the configuration selects behind one interface.
use agcore.Prelude.{ℕ, List, Option, Bool}
use agcore.Driver.Display.{PanelConfig, Display, Answers, Act}
use agcore.Driver.Display.St7735
use agcore.Driver.Display.St7789

-- CONFIG_DISPLAY_IC_ST7735, CONFIG_DISPLAY_IC_ST7789
pub data DisplayIc : Type 0 where
  st7735 st7789 : DisplayIc

abbrev pub driver_get_rotation : DisplayIc → Display → ℕ
driver_get_rotation st7735 d = St7735.get_rotation d
driver_get_rotation st7789 d = St7789.get_rotation d

abbrev pub driver_get_width : DisplayIc → Display → ℕ
driver_get_width st7735 d = St7735.get_width d
driver_get_width st7789 d = St7789.get_width d

abbrev pub driver_get_height : DisplayIc → Display → ℕ
driver_get_height st7735 d = St7735.get_height d
driver_get_height st7789 d = St7789.get_height d

module _ (cfg : PanelConfig) (answer : Answers) where
  abbrev pub driver_init : DisplayIc → Option ℕ → Act
  driver_init st7735 cb = St7735.init cfg answer cb
  driver_init st7789 cb = St7789.init cfg answer cb

  abbrev pub driver_set_backlight : DisplayIc → Bool → Act
  driver_set_backlight st7735 enabled = St7735.set_backlight cfg answer enabled
  driver_set_backlight st7789 enabled = St7789.set_backlight cfg answer enabled

  abbrev pub driver_set_rotation : DisplayIc → ℕ → Act
  driver_set_rotation st7735 rotation = St7735.set_rotation cfg answer rotation
  driver_set_rotation st7789 rotation = St7789.set_rotation cfg answer rotation

  abbrev pub driver_flush : DisplayIc → ℕ → ℕ → ℕ → ℕ → Option (List ℕ) → Act
  driver_flush st7735 x_start y_start x_end y_end rgb565_data =
      St7735.flush cfg answer x_start y_start x_end y_end rgb565_data
  driver_flush st7789 x_start y_start x_end y_end rgb565_data =
      St7789.flush cfg answer x_start y_start x_end y_end rgb565_data

  abbrev pub driver_test : DisplayIc → Act
  driver_test st7735 = St7735.test cfg answer
  driver_test st7789 = St7789.test cfg answer

  -- The task that the test starts, round by round.
  abbrev pub driver_test_round : DisplayIc → ℕ × List ℕ → Display → (ℕ × List ℕ) × Display
  driver_test_round st7735 s d = St7735.test_task_round cfg answer s d
  driver_test_round st7789 s d = St7789.test_task_round cfg answer s d
