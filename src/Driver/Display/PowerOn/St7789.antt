-- ===== src/Driver/Display/PowerOn/St7789.antt =====
-- driver/display/panel/st7789/display_st7789.c: the initialisation makes the calls of the sequence.
use agcore.Prelude.{
  ℕ, ◌≡◌, refl, sym, subst, List, [], ◌∷◌, ◌++◌, append-nil, Option, none, some, Bool, true, false,
  arith, if_cases, inr,
}
use agcore.Platform.{invalid_arg}
use agcore.Driver.Display.{
  madctl, colmod, raw, Call, tx_param, gpio_config, gpio_set_level, spi_bus_initialize,
  new_panel_io, delay_ms, PanelConfig, Answers, Display, with_callback, lacks_pin, frame_bytes,
  ◌>>◌, call, ignoring,
}
use agcore.Driver.Display.Facade.{st7789}
use agcore.Driver.Display.Sequence.{
  Followed, Follows, ◌⨟◌, Follows-call, Follows-ignoring, Follows-if_configured, quiet, for_pin,
}
use agcore.Driver.Display.PowerOn.{
  backlight_level, lights_on, reset_calls, panel_calls, start_direction, power_on, power_on_to,
}
use agcore.Driver.Display.St7789.{
  set_level, set_backlight, positive_gamma, negative_gamma, commands_init, panel_init,
  init_backlight, init_bus, init_panel_io, reset_pulse, init_reset, mark_initialized, backlight_on,
  init_steps, init,
}

module _ (cfg : PanelConfig) (answer : Answers) where
  commands_init-Follows :
      Follows
        (tx_param (raw 0xB2) (0x0C ∷ 0x0C ∷ 0x00 ∷ 0x33 ∷ 0x33 ∷ [])
          ∷ tx_param (raw 0xB7) (0x35 ∷ [])
          ∷ tx_param (raw 0xBB) (0x19 ∷ [])
          ∷ tx_param (raw 0xC0) (0x2C ∷ [])
          ∷ tx_param (raw 0xC2) (0x01 ∷ 0xFF ∷ [])
          ∷ tx_param (raw 0xC3) (0x12 ∷ [])
          ∷ tx_param (raw 0xC4) (0x20 ∷ [])
          ∷ tx_param (raw 0xC6) (0x0F ∷ [])
          ∷ tx_param (raw 0xD0) (0xA4 ∷ 0xA1 ∷ [])
          ∷ tx_param madctl (0 ∷ [])
          ∷ tx_param colmod (0x55 ∷ [])
          ∷ delay_ms 10
          ∷ tx_param (raw 0xB0) (0x00 ∷ 0xF8 ∷ [])
          ∷ tx_param (raw 0xE0) positive_gamma
          ∷ tx_param (raw 0xE1) negative_gamma
          ∷ [])
        (commands_init cfg answer)
  unfolding commands_init
  commands_init-Follows =
      Follows-call answer _
      ⨟ Follows-call answer _
      ⨟ Follows-call answer _
      ⨟ Follows-call answer _
      ⨟ Follows-call answer _
      ⨟ Follows-call answer _
      ⨟ Follows-call answer _
      ⨟ Follows-call answer _
      ⨟ Follows-call answer _
      ⨟ Follows-call answer _
      ⨟ Follows-call answer _
      ⨟ Follows-ignoring answer _
      ⨟ Follows-call answer _
      ⨟ Follows-call answer _
      ⨟ Follows-call answer _

  panel_init-Follows : Follows (panel_calls st7789 cfg) (panel_init cfg answer)
  unfolding panel_init
  panel_init-Follows =
      Follows-call answer _
      ⨟ Follows-ignoring answer _
      ⨟ Follows-call answer _
      ⨟ Follows-ignoring answer _
      ⨟ commands_init-Follows
      ⨟ Follows-call answer _
      ⨟ Follows-call answer _
      ⨟ Follows-ignoring answer _
      ⨟ Follows-call answer _
      ⨟ Follows-ignoring answer _

  set_level-Follows :
      (pin : Option ℕ) (p : ℕ) (level : Bool)
      → pin ≡ some p
      → Follows (gpio_set_level p level ∷ []) (ignoring (set_level cfg answer pin level))
  unfolding ignoring set_level call
  set_level-Follows pin p level e =
      subst
        (λ (o : Option ℕ).
          Follows (gpio_set_level p level ∷ []) (ignoring (set_level cfg answer o level)))
        (sym e) (record { run = λ d. (1, omega arith, refl, inr refl) })

  init_backlight-Follows :
      Follows
        (for_pin cfg.gpio_backlight
          (λ pin. gpio_config pin ∷ gpio_set_level pin (backlight_level cfg false) ∷ []))
        (init_backlight cfg answer)
  unfolding init_backlight set_backlight
  init_backlight-Follows =
      Follows-if_configured cfg.gpio_backlight _ _
        (λ pin e. Follows-call answer _ ⨟ set_level-Follows cfg.gpio_backlight pin _ e)

  backlight_on-Follows : Follows (lights_on cfg) (backlight_on cfg answer)
  unfolding backlight_on set_backlight
  backlight_on-Follows =
      Follows-if_configured cfg.gpio_backlight _ _
        (λ pin e. set_level-Follows cfg.gpio_backlight pin _ e)

  init_bus-Follows :
      Follows
        (spi_bus_initialize cfg.spi_host cfg.gpio_mosi cfg.gpio_sclk (frame_bytes cfg) ∷ [])
        (init_bus cfg answer)
  unfolding init_bus call
  init_bus-Follows = record { run = λ d. (1, omega arith, refl, inr refl) }

  module _ (cb : Option ℕ) where
    abbrev io_call : Call
    io_call =
        new_panel_io cfg.spi_host cfg.gpio_dc cfg.gpio_cs cfg.pixel_clock_hz
          (elim cb [ none ↦ false | some f ↦ true ])

    init_panel_io-Follows : Follows (io_call ∷ []) (init_panel_io cfg answer cb)
    unfolding init_panel_io ◌>>◌
    init_panel_io-Follows = record {
      run = λ d.
          (Follows-call answer io_call
              ⨟ quiet (λ e. record e { runtime = record e.runtime { panel_io = true } })
                  (λ e. refl)).run
            d;
    }

  reset_pulse-Follows :
      (pin : ℕ)
      → Follows
          (gpio_set_level pin false ∷ delay_ms 20 ∷ gpio_set_level pin true ∷ delay_ms 120 ∷ [])
          (reset_pulse cfg answer pin)
  unfolding reset_pulse
  reset_pulse-Follows pin =
      Follows-ignoring answer _
      ⨟ Follows-ignoring answer _
      ⨟ Follows-ignoring answer _
      ⨟ Follows-ignoring answer _

  init_reset-Follows : Follows (for_pin cfg.gpio_rst reset_calls) (init_reset cfg answer)
  unfolding init_reset
  init_reset-Follows =
      Follows-if_configured cfg.gpio_rst _ _
        (λ pin e. Follows-call answer _ ⨟ reset_pulse-Follows pin)

  mark_initialized-Follows : Follows [] (mark_initialized cfg answer)
  unfolding mark_initialized
  mark_initialized-Follows = record {
    run = λ d. (0, omega arith, sym (append-nil d.calls), inr refl);
  }

  init_steps-Follows : (cb : Option ℕ) → Follows (power_on st7789 cfg cb) (init_steps cfg answer cb)
  unfolding init_steps
  init_steps-Follows cb =
      subst
        (λ (l : List Call).
          Follows (power_on_to st7789 cfg cb (start_direction st7789 cfg ++ l))
            (init_steps cfg answer cb))
        (sym (append-nil (lights_on cfg)))
        (init_backlight-Follows
          ⨟ init_bus-Follows
          ⨟ init_panel_io-Follows cb
          ⨟ init_reset-Follows
          ⨟ panel_init-Follows
          ⨟ mark_initialized-Follows
          ⨟ backlight_on-Follows)

  pub init-Followed :
      (cb : Option ℕ) (d : Display)
      → d.runtime.initialized ≡ false
      → lacks_pin cfg ≡ false
      → Followed (power_on st7789 cfg cb) d (init cfg answer cb d)
  unfolding init
  init-Followed cb d e pins =
      if_cases (Followed (power_on st7789 cfg cb) d) d.runtime.initialized _ _
        (λ h. absurd (ground (arith, h, e)))
        (λ h.
          if_cases (Followed (power_on st7789 cfg cb) d) (lacks_pin cfg) (invalid_arg, d)
            (init_steps cfg answer cb (with_callback cb d)) (λ k. absurd (ground (arith, k, pins)))
            (λ k. (init_steps-Follows cb).run (with_callback cb d)))
