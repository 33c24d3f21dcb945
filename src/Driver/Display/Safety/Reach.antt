-- ===== src/Driver/Display/Safety/Reach.antt =====
-- driver/display: the displays that a client of display_driver.c reaches.
use agcore.Prelude.{ℕ, List, [], Option, Bool, refl, arith}
use agcore.Driver.Display.{PanelConfig, runtime_init, Display, Answers}
use agcore.Driver.Display.Facade.{
  DisplayIc, st7735, st7789, driver_init, driver_set_backlight, driver_set_rotation, driver_flush,
  driver_test, driver_test_round,
}
use agcore.Driver.Display.Safety.{IsSafe, handle_after, ordered}
use agcore.Driver.Display.Safety.Rules.{early}
use agcore.Driver.Display.Safety.St7735
use agcore.Driver.Display.Safety.Test7735
use agcore.Driver.Display.Safety.St7789
use agcore.Driver.Display.Safety.Test7789

module _ (ic : DisplayIc) (cfg : PanelConfig) (answer : Answers) where
  -- One call of the driver, or one round of the task that the test starts.
  pub data Step : Display → Display → Type 0 where
    init : (d : Display) (cb : Option ℕ) → Step d (driver_init cfg answer ic cb d).1
    backlight :
        (d : Display) (enabled : Bool) → Step d (driver_set_backlight cfg answer ic enabled d).1
    rotate : (d : Display) (rotation : ℕ) → Step d (driver_set_rotation cfg answer ic rotation d).1
    flush :
        (d : Display) (x_start y_start x_end y_end : ℕ) (pixels : Option (List ℕ))
        → Step d (driver_flush cfg answer ic x_start y_start x_end y_end pixels d).1
    test : (d : Display) → Step d (driver_test cfg answer ic d).1
    round :
        (d : Display) (color_index : ℕ) (frame_buffer : List ℕ)
        → Step d (driver_test_round cfg answer ic (color_index, frame_buffer) d).1

  pub data Reaches (d : Display) : Display → Type 0 where
    here : Reaches d d
    next : {e f : Display} → Reaches d e → Step e f → Reaches d f

abbrev pub display_start : PanelConfig → Display
display_start cfg = record { runtime = runtime_init cfg; calls = [] }

display_start-IsSafe :
    (cfg : PanelConfig) (answer : Answers) → IsSafe answer cfg (display_start cfg)
unfolding handle_after ordered
display_start-IsSafe cfg answer = record {
  sized = (refl, refl);
  direction = omega arith;
  ready = refl;
  handle = refl;
  sent = refl;
}

Step-IsSafe :
    (ic : DisplayIc) (cfg : PanelConfig) (answer : Answers) {d e : Display}
    → Step ic cfg answer d e
    → IsSafe answer cfg d
    → IsSafe answer cfg e
Step-IsSafe st7735 cfg answer (init d cb) s = ((St7735.init-Keeps cfg answer cb).run d s tt).0
Step-IsSafe st7735 cfg answer (backlight d enabled) s =
    ((St7735.set_backlight-Keeps cfg answer early enabled).run d s tt).0
Step-IsSafe st7735 cfg answer (rotate d rotation) s =
    ((St7735.set_rotation-Keeps cfg answer early rotation).run d s tt).0
Step-IsSafe st7735 cfg answer (flush d x_start y_start x_end y_end pixels) s =
    ((St7735.flush-Keeps cfg answer early x_start y_start x_end y_end pixels).run d s tt).0
Step-IsSafe st7735 cfg answer (test d) s = ((Test7735.test-Keeps cfg answer).run d s tt).0
Step-IsSafe st7735 cfg answer (round d color_index frame_buffer) s =
    Test7735.test_task_round-IsSafe cfg answer color_index frame_buffer d s
Step-IsSafe st7789 cfg answer (init d cb) s = ((St7789.init-Keeps cfg answer cb).run d s tt).0
Step-IsSafe st7789 cfg answer (backlight d enabled) s =
    ((St7789.set_backlight-Keeps cfg answer early enabled).run d s tt).0
Step-IsSafe st7789 cfg answer (rotate d rotation) s =
    ((St7789.set_rotation-Keeps cfg answer early rotation).run d s tt).0
Step-IsSafe st7789 cfg answer (flush d x_start y_start x_end y_end pixels) s =
    ((St7789.flush-Keeps cfg answer early x_start y_start x_end y_end pixels).run d s tt).0
Step-IsSafe st7789 cfg answer (test d) s = ((Test7789.test-Keeps cfg answer).run d s tt).0
Step-IsSafe st7789 cfg answer (round d color_index frame_buffer) s =
    Test7789.test_task_round-IsSafe cfg answer color_index frame_buffer d s

-- Whatever a client calls in whatever order, and whatever the hardware answers, from the start on: the
-- screen's size is the configured one, turned exactly in the two directions that turn it; the direction is one of the four;
-- what is initialised has a handle; and nothing is sent to the panel before a call has made one.
pub display-Reaches-IsSafe :
    (ic : DisplayIc) (cfg : PanelConfig) (answer : Answers) {d : Display}
    → Reaches ic cfg answer (display_start cfg) d
    → IsSafe answer cfg d
display-Reaches-IsSafe ic cfg answer here = display_start-IsSafe cfg answer
display-Reaches-IsSafe ic cfg answer (next r step) =
    Step-IsSafe ic cfg answer step (display-Reaches-IsSafe ic cfg answer r)
