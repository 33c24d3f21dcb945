-- ===== src/Driver/Display/PowerOn/St7735.antt =====
-- driver/display/panel/st7735/display_st7735.c: the initialisation makes the calls of the sequence.
use agcore.Prelude.{
  ℕ, ◌≡◌, refl, sym, subst, List, [], ◌∷◌, ◌++◌, append_assoc, append-nil, Option, none, some, Bool,
  true, false, if◌then◌else◌, arith, if_cases, inr,
}
use agcore.Platform.{invalid_arg}
use agcore.Driver.Display.{
  swreset, slpout, madctl, colmod, raw, Call, tx_param, gpio_config, gpio_set_level,
  spi_bus_initialize, new_panel_io, delay_ms, PanelConfig, Answers, Display, with_callback,
  lacks_pin, rotation_180, frame_bytes, ◌>>◌, call, ignoring, return_ok,
}
use agcore.Driver.Display.Facade.{st7735}
use agcore.Driver.Display.Sequence.{
  Followed, Follows, ◌⨟◌, Follows-if, Follows-call, Follows-ignoring, Follows-if_configured,
  Follows-return, quiet, guard_initialized, for_pin,
}
use agcore.Driver.Display.PowerOn.{
  backlight_level, lights_on, reset_calls, panel_calls, start_direction, power_on, power_on_to,
}
use agcore.Driver.Display.St7735.{
  set_level, set_backlight, inversion_control, commands_init, panel_init, init_backlight, init_bus,
  init_panel_io, reset_pulse, init_reset, mark_initialized, rotate, rotation_madctl, set_rotation,
  backlight_on, init_steps, init, turn,
}

module _ (cfg : PanelConfig) (answer : Answers) where
  inversion_control-Follows :
      Follows
        (if cfg.invert_color then tx_param (raw 0xB4) (0x07 ∷ []) ∷ [] else [])
        (inversion_control cfg answer)
  unfolding inversion_control
  inversion_control-Follows =
      Follows-if cfg.invert_color _ return_ok _ [] (Follows-call answer _) Follows-return

  abbrev direction : ℕ
  direction = if cfg.bgr_order then cfg.bits.bgr else 0

  commands_init-Follows :
      Follows
        (tx_param (raw 0xB1) (0x01 ∷ 0x2C ∷ 0x2D ∷ [])
          ∷ tx_param (raw 0xB2) (0x01 ∷ 0x2C ∷ 0x2D ∷ [])
          ∷ tx_param (raw 0xB3) (0x01 ∷ 0x2C ∷ 0x2D ∷ 0x01 ∷ 0x2C ∷ 0x2D ∷ [])
          ∷ ((if cfg.invert_color then tx_param (raw 0xB4) (0x07 ∷ []) ∷ [] else [])
              ++ (tx_param (raw 0xC0) (0xA2 ∷ 0x02 ∷ 0x84 ∷ [])
                  ∷ tx_param (raw 0xC1) (0xC5 ∷ [])
                  ∷ tx_param (raw 0xC2) (0x0A ∷ 0x00 ∷ [])
                  ∷ tx_param (raw 0xC3) (0x8A ∷ 0x2A ∷ [])
                  ∷ tx_param (raw 0xC4) (0x8A ∷ 0xEE ∷ [])
                  ∷ tx_param (raw 0xC5) (0x0E ∷ [])
                  ∷ tx_param madctl (direction ∷ [])
                  ∷ tx_param colmod (0x05 ∷ [])
                  ∷ [])))
        (commands_init cfg answer)
  unfolding commands_init
  commands_init-Follows =
      Follows-call answer _
      ⨟ Follows-call answer _
      ⨟ Follows-call answer _
      ⨟ inversion_control-Follows
      ⨟ Follows-call answer _
      ⨟ Follows-call answer _
      ⨟ Follows-call answer _
      ⨟ Follows-call answer _
      ⨟ Follows-call answer _
      ⨟ Follows-call answer _
      ⨟ Follows-call answer _
      ⨟ Follows-call answer _

  panel_init-Follows : Follows (panel_calls st7735 cfg) (panel_init cfg answer)
  unfolding panel_init
  panel_init-Follows =
      subst
        (λ (l : List Call).
          Follows
            (tx_param swreset []
              ∷ delay_ms 150
              ∷ tx_param slpout []
              ∷ delay_ms 120
              ∷ tx_param (raw 0xB1) (0x01 ∷ 0x2C ∷ 0x2D ∷ [])
              ∷ tx_param (raw 0xB2) (0x01 ∷ 0x2C ∷ 0x2D ∷ [])
              ∷ tx_param (raw 0xB3) (0x01 ∷ 0x2C ∷ 0x2D ∷ 0x01 ∷ 0x2C ∷ 0x2D ∷ [])
              ∷ l)
            (panel_init cfg answer))
        (append_assoc (if cfg.invert_color then tx_param (raw 0xB4) (0x07 ∷ []) ∷ [] else []) _ _)
        (Follows-call answer _
          ⨟ Follows-ignoring answer _
          ⨟ Follows-call answer _
          ⨟ Follows-ignoring answer _
          ⨟ commands_init-Follows
          ⨟ Follows-call answer _
          ⨟ Follows-call answer _
          ⨟ Follows-ignoring answer _
          ⨟ Follows-call answer _
          ⨟ Follows-ignoring answer _)

  set_level-Follows :
      (pin : Option ℕ) (p : ℕ) (level : Bool)
      → pin ≡ some p
      → Follows (gpio_set_level p level ∷ []) (ignoring (set_level cfg answer pin level))
  unfolding ignoring set_level call
  set_level-Follows pin p level e =
      subst
        (λ (o : Option ℕ).
          Follows (gpio_set_level p level ∷ []) (ignoring (set_level cfg answer o level)))
        (sym e) (record { run = λ d. (1, omega arith, refl, inr refl) })

  init_backlight-Follows :
      Follows
        (for_pin cfg.gpio_backlight
          (λ pin. gpio_config pin ∷ gpio_set_level pin (backlight_level cfg false) ∷ []))
        (init_backlight cfg answer)
  unfolding init_backlight set_backlight
  init_backlight-Follows =
      Follows-if_configured cfg.gpio_backlight _ _
        (λ pin e. Follows-call answer _ ⨟ set_level-Follows cfg.gpio_backlight pin _ e)

  backlight_on-Follows : Follows (lights_on cfg) (backlight_on cfg answer)
  unfolding backlight_on set_backlight
  backlight_on-Follows =
      Follows-if_configured cfg.gpio_backlight _ _
        (λ pin e. set_level-Follows cfg.gpio_backlight pin _ e)

  init_bus-Follows :
      Follows
        (spi_bus_initialize cfg.spi_host cfg.gpio_mosi cfg.gpio_sclk (frame_bytes cfg) ∷ [])
        (init_bus cfg answer)
  unfolding init_bus call
  init_bus-Follows = record { run = λ d. (1, omega arith, refl, inr refl) }

  module _ (cb : Option ℕ) where
    abbrev io_call : Call
    io_call =
        new_panel_io cfg.spi_host cfg.gpio_dc cfg.gpio_cs cfg.pixel_clock_hz
          (elim cb [ none ↦ false | some f ↦ true ])

    init_panel_io-Follows : Follows (io_call ∷ []) (init_panel_io cfg answer cb)
    unfolding init_panel_io ◌>>◌
    init_panel_io-Follows = record {
      run = λ d.
          (Follows-call answer io_call
              ⨟ quiet (λ e. record e { runtime = record e.runtime { panel_io = true } })
                  (λ e. refl)).run
            d;
    }

  reset_pulse-Follows :
      (pin : ℕ)
      → Follows
          (gpio_set_level pin false ∷ delay_ms 20 ∷ gpio_set_level pin true ∷ delay_ms 120 ∷ [])
          (reset_pulse cfg answer pin)
  unfolding reset_pulse
  reset_pulse-Follows pin =
      Follows-ignoring answer _
      ⨟ Follows-ignoring answer _
      ⨟ Follows-ignoring answer _
      ⨟ Follows-ignoring answer _

  init_reset-Follows : Follows (for_pin cfg.gpio_rst reset_calls) (init_reset cfg answer)
  unfolding init_reset
  init_reset-Follows =
      Follows-if_configured cfg.gpio_rst _ _
        (λ pin e. Follows-call answer _ ⨟ reset_pulse-Follows pin)

  mark_initialized-Follows : Follows [] (mark_initialized cfg answer)
  unfolding mark_initialized
  mark_initialized-Follows = record {
    run = λ d. (0, omega arith, sym (append-nil d.calls), inr refl);
  }

  turn-calls : (rotation : ℕ) (d : Display) → (turn cfg rotation d).calls ≡ d.calls
  unfolding turn
  turn-calls rotation d = ground arith

  rotate-Follows :
      (rotation m : ℕ)
      → Follows (tx_param madctl (m ∷ []) ∷ []) (rotate cfg answer rotation (some m))
  unfolding rotate ◌>>◌
  rotate-Follows rotation m = record {
    run = λ d. (Follows-call answer _ ⨟ quiet (turn cfg rotation) (turn-calls rotation)).run d;
  }

  set_rotation-Follows : Follows (start_direction st7735 cfg) (set_rotation cfg answer rotation_180)
  unfolding set_rotation rotation_madctl
  set_rotation-Follows = record { run = guard_initialized (rotate-Follows rotation_180 _) }

  init_steps-Follows : (cb : Option ℕ) → Follows (power_on st7735 cfg cb) (init_steps cfg answer cb)
  unfolding init_steps
  init_steps-Follows cb =
      subst
        (λ (l : List Call).
          Follows (power_on_to st7735 cfg cb (start_direction st7735 cfg ++ l))
            (init_steps cfg answer cb))
        (sym (append-nil (lights_on cfg)))
        (init_backlight-Follows
          ⨟ init_bus-Follows
          ⨟ init_panel_io-Follows cb
          ⨟ init_reset-Follows
          ⨟ panel_init-Follows
          ⨟ mark_initialized-Follows
          ⨟ set_rotation-Follows
          ⨟ backlight_on-Follows)

  pub init-Followed :
      (cb : Option ℕ) (d : Display)
      → d.runtime.initialized ≡ false
      → lacks_pin cfg ≡ false
      → Followed (power_on st7735 cfg cb) d (init cfg answer cb d)
  unfolding init
  init-Followed cb d e pins =
      if_cases (Followed (power_on st7735 cfg cb) d) d.runtime.initialized _ _
        (λ h. absurd (ground (arith, h, e)))
        (λ h.
          if_cases (Followed (power_on st7735 cfg cb) d) (lacks_pin cfg) (invalid_arg, d)
            (init_steps cfg answer cb (with_callback cb d)) (λ k. absurd (ground (arith, k, pins)))
            (λ k. (init_steps-Follows cb).run (with_callback cb d)))
