-- ===== src/Driver/Display/PowerOn/Started7789.antt =====
-- driver/display/panel/st7789/display_st7789.c: the display is initialised where its initialisation succeeds.
use agcore.Prelude.{ℕ, ◌≡◌, refl, Option, none, some, Bool, true, false, if◌then◌else◌, if_cases}
use agcore.Platform.{EspErr, is_ok, invalid_arg, invalid_state}
use agcore.Driver.Display.{
  PanelConfig, Answers, Display, with_callback, lacks_pin, ◌>>◌, Act, call, ignoring,
}
use agcore.Driver.Display.Sequence.{Starts, Stays, Starts-then, Stays-same, Stays-if_configured}
use agcore.Driver.Display.St7789.{
  set_level, set_backlight, mark_initialized, backlight_on, init_steps, init,
}

module _ (cfg : PanelConfig) (answer : Answers) where
  initialized-set_level :
      (pin : Option ℕ) (level : Bool) (d : Display)
      → (ignoring (set_level cfg answer pin level) d).1.runtime.initialized ≡ d.runtime.initialized
  unfolding ignoring set_level call
  initialized-set_level none level d = refl
  initialized-set_level (some p) level d = refl

  backlight_on-Stays : Stays (backlight_on cfg answer)
  unfolding backlight_on set_backlight
  backlight_on-Stays =
      Stays-if_configured cfg.gpio_backlight _
        (λ p. Stays-same (initialized-set_level cfg.gpio_backlight _))

  mark_initialized-Starts : (next : Act) → Stays next → Starts (mark_initialized cfg answer >> next)
  unfolding mark_initialized ◌>>◌
  mark_initialized-Starts next n = record { run = λ d h. n.run _ refl }

  init_steps-Starts : (cb : Option ℕ) → Starts (init_steps cfg answer cb)
  unfolding init_steps
  init_steps-Starts cb = Starts-then _ (
      Starts-then _ (
        Starts-then _
          (Starts-then _ (Starts-then _ (mark_initialized-Starts _ backlight_on-Stays)))))

  pub init-started :
      (cb : Option ℕ) (d : Display)
      → d.runtime.initialized ≡ false
      → is_ok (init cfg answer cb d).0 ≡ true
      → (init cfg answer cb d).1.runtime.initialized ≡ true
  unfolding init
  init-started cb d e =
      if_cases (λ (o : EspErr × Display). is_ok o.0 ≡ true → o.1.runtime.initialized ≡ true)
        d.runtime.initialized (invalid_state, d)
        (if lacks_pin cfg then (invalid_arg, d) else init_steps cfg answer cb (with_callback cb d))
        (λ h k. h)
        (λ h.
          if_cases (λ (o : EspErr × Display). is_ok o.0 ≡ true → o.1.runtime.initialized ≡ true)
            (lacks_pin cfg) (invalid_arg, d) (init_steps cfg answer cb (with_callback cb d))
            (λ k l. cc) (λ k. (init_steps-Starts cb).run (with_callback cb d)))
