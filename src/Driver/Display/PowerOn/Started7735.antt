-- ===== src/Driver/Display/PowerOn/Started7735.antt =====
-- driver/display/panel/st7735/display_st7735.c: the display is initialised where its initialisation succeeds.
use agcore.Prelude.{
  ℕ, ◌≡◌, refl, [], ◌∷◌, Option, none, some, Bool, true, false, not, if◌then◌else◌, arith, if_cases,
}
use agcore.Platform.{EspErr, esp_ok, is_ok, invalid_arg, invalid_state}
use agcore.Driver.Display.{
  madctl, tx_param, PanelConfig, Answers, Display, with_callback, lacks_pin, rotation_180, ◌>>◌,
  Act, call, ignoring,
}
use agcore.Driver.Display.Sequence.{
  Starts, Stays, Starts-then, Stays-then, Stays-same, Stays-if_configured, initialized-and_then,
}
use agcore.Driver.Display.St7735.{
  set_level, set_backlight, mark_initialized, rotate, rotation_madctl, set_rotation, backlight_on,
  init_steps, init, turn,
}

module _ (cfg : PanelConfig) (answer : Answers) where
  initialized-turn :
      (rotation : ℕ) (d : Display)
      → (turn cfg rotation d).runtime.initialized ≡ d.runtime.initialized
  unfolding turn
  initialized-turn rotation d = ground arith

  initialized-rotate :
      (rotation : ℕ) (m : Option ℕ) (d : Display)
      → (rotate cfg answer rotation m d).1.runtime.initialized ≡ d.runtime.initialized
  unfolding rotate call
  initialized-rotate rotation none d = refl
  initialized-rotate rotation (some m) d =
      initialized-and_then (call answer (tx_param madctl (m ∷ [])) d)
        (λ e. (esp_ok, turn cfg rotation e)) d.runtime.initialized refl (initialized-turn rotation)

  initialized-set_rotation :
      (rotation : ℕ) (d : Display)
      → (set_rotation cfg answer rotation d).1.runtime.initialized ≡ d.runtime.initialized
  unfolding set_rotation
  initialized-set_rotation rotation d =
      if_cases (λ (o : EspErr × Display). o.1.runtime.initialized ≡ d.runtime.initialized)
        (not d.runtime.initialized) (invalid_state, d)
        (rotate cfg answer rotation (rotation_madctl cfg rotation) d) (λ e. refl)
        (λ e. initialized-rotate rotation (rotation_madctl cfg rotation) d)

  initialized-set_level :
      (pin : Option ℕ) (level : Bool) (d : Display)
      → (ignoring (set_level cfg answer pin level) d).1.runtime.initialized ≡ d.runtime.initialized
  unfolding ignoring set_level call
  initialized-set_level none level d = refl
  initialized-set_level (some p) level d = refl

  backlight_on-Stays : Stays (backlight_on cfg answer)
  unfolding backlight_on set_backlight
  backlight_on-Stays =
      Stays-if_configured cfg.gpio_backlight _
        (λ p. Stays-same (initialized-set_level cfg.gpio_backlight _))

  mark_initialized-Starts : (next : Act) → Stays next → Starts (mark_initialized cfg answer >> next)
  unfolding mark_initialized ◌>>◌
  mark_initialized-Starts next n = record { run = λ d h. n.run _ refl }

  init_steps-Starts : (cb : Option ℕ) → Starts (init_steps cfg answer cb)
  unfolding init_steps
  init_steps-Starts cb = Starts-then _ (
      Starts-then _ (
        Starts-then _ (
          Starts-then _ (
            Starts-then _ (
              mark_initialized-Starts _ (
                Stays-then (Stays-same (initialized-set_rotation rotation_180))
                  backlight_on-Stays))))))

  pub init-started :
      (cb : Option ℕ) (d : Display)
      → d.runtime.initialized ≡ false
      → is_ok (init cfg answer cb d).0 ≡ true
      → (init cfg answer cb d).1.runtime.initialized ≡ true
  unfolding init
  init-started cb d e =
      if_cases (λ (o : EspErr × Display). is_ok o.0 ≡ true → o.1.runtime.initialized ≡ true)
        d.runtime.initialized (invalid_state, d)
        (if lacks_pin cfg then (invalid_arg, d) else init_steps cfg answer cb (with_callback cb d))
        (λ h k. h)
        (λ h.
          if_cases (λ (o : EspErr × Display). is_ok o.0 ≡ true → o.1.runtime.initialized ≡ true)
            (lacks_pin cfg) (invalid_arg, d) (init_steps cfg answer cb (with_callback cb d))
            (λ k l. cc) (λ k. (init_steps-Starts cb).run (with_callback cb d)))
