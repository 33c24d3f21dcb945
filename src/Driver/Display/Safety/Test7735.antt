-- ===== src/Driver/Display/Safety/Test7735.antt =====
-- driver/display/panel/st7735/display_st7735.c: the test task keeps the display safe.
use agcore.Prelude.{ℕ, refl, List, none, true, not, if_cases}
use agcore.Platform.{esp_ok, no_mem, is_ok}
use agcore.Driver.Display.{
  delay_ms, heap_malloc, heap_free, task_create, PanelConfig, Display, Answers, call,
}
use agcore.Driver.Display.Safety.{IsSafe}
use agcore.Driver.Display.Safety.Rules.{
  early, Kept, Keeps, call-IsSafe, then-Kept, with_task-IsSafe,
}
use agcore.Driver.Display.St7735.{test_task_round, create_test_task, start_test_task, test}
use agcore.Driver.Display.Safety.St7735.{init-Keeps, flush-Keeps}

module _ (cfg : PanelConfig) (answer : Answers) where
  create_test_task-Keeps : Keeps cfg answer early early (create_test_task cfg answer)
  unfolding create_test_task
  create_test_task-Keeps = record {
    run = λ d s p.
        let e = (call answer task_create d).1 in
        let s' = call-IsSafe cfg answer task_create d refl refl s in
        if_cases (Kept cfg answer early) (is_ok (call answer task_create d).0)
          (esp_ok, record e { runtime = record e.runtime { test_task = true } })
          (no_mem, (call answer heap_free e).1)
          (λ f. (with_task-IsSafe cfg answer true e s', λ h. tt))
          (λ f. (call-IsSafe cfg answer heap_free e refl refl s', λ h. tt));
  }

  start_test_task-Keeps : Keeps cfg answer early early (start_test_task cfg answer)
  unfolding start_test_task
  start_test_task-Keeps = record {
    run = λ d s p.
        let e = (call answer heap_malloc d).1 in
        let s' = call-IsSafe cfg answer heap_malloc d refl refl s in
        if_cases (Kept cfg answer early) (not (is_ok (call answer heap_malloc d).0)) (no_mem, e)
          (create_test_task cfg answer e) (λ f. (s', λ h. tt))
          (λ f. create_test_task-Keeps.run e s' tt);
  }

  pub test-Keeps : Keeps cfg answer early early (test cfg answer)
  unfolding test
  test-Keeps = record {
    run = λ d s p.
        if_cases (Kept cfg answer early) d.runtime.test_task _ _ (λ e. (s, λ h. tt))
          (λ e.
            then-Kept cfg answer early early (start_test_task cfg answer) _
              (if_cases (Kept cfg answer early) d.runtime.initialized _ _ (λ f. (s, λ h. tt))
                (λ f. (init-Keeps cfg answer none).run d s tt))
              start_test_task-Keeps);
  }

  pub test_task_round-IsSafe :
      (c : ℕ) (frame_buffer : List ℕ) (d : Display)
      → IsSafe answer cfg d
      → IsSafe answer cfg (test_task_round cfg answer (c, frame_buffer) d).1
  unfolding test_task_round
  test_task_round-IsSafe c frame_buffer d s =
      call-IsSafe cfg answer (delay_ms 1000) _ refl refl
        ((flush-Keeps cfg answer early 0 0 cfg.width cfg.height _).run d s tt).0
