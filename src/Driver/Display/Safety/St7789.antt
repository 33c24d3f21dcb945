-- ===== src/Driver/Display/Safety/St7789.antt =====
-- driver/display/panel/st7789/display_st7789.c: every operation keeps the display safe.
use agcore.Prelude.{
  ℕ, ◌≡◌, refl, List, [], ◌∷◌, Option, none, some, Bool, true, false, arith, ◌<◌, if_cases,
}
use agcore.Platform.{esp_ok}
use agcore.Driver.Display.{
  madctl, tx_color, gpio_config, gpio_set_level, PanelConfig, Display, Answers, Act, ignoring, call,
}
use agcore.Driver.Display.Safety.Rules.{
  Stage, early, opened, Kept, Keeps, Keeps-then, Keeps-call, Keeps-ignoring, Keeps-write,
  Keeps-if_configured, open-Keeps, then-Kept, with_callback-IsSafe, if_initialized-Keeps,
  ignoring-Keeps, Keeps-send, steady,
}
use agcore.Driver.Display.St7789.{
  set_level, set_backlight, backlight_on, rotate, check_region, set_rotation, turn, rotation_madctl,
  send_region, flush, commands_init, panel_init, init_backlight, init_bus, init_panel_io,
  reset_pulse, init_reset, mark_initialized, init_steps, init, write, is_bad_region,
}

module _ (cfg : PanelConfig) (answer : Answers) where
  abbrev K : Stage → Stage → Act → Type 0
  K P Q act = Keeps cfg answer P Q act

  commands_init-Keeps : K opened opened (commands_init cfg answer)
  unfolding commands_init
  commands_init-Keeps =
      search (steady cfg answer opened, Keeps-write cfg answer, Keeps-ignoring cfg answer opened)
        depth 40

  panel_init-Keeps : K opened opened (panel_init cfg answer)
  unfolding panel_init
  panel_init-Keeps =
      search
        (
          steady cfg answer opened,
          Keeps-write cfg answer,
          commands_init-Keeps,
          Keeps-ignoring cfg answer opened,
        )
        depth 40

  set_level-Keeps :
      (P : Stage) (pin : Option ℕ) (level : Bool) → K P P (set_level cfg answer pin level)
  unfolding set_level
  set_level-Keeps P none level = record { run = λ d s p. (s, λ h. p) }
  set_level-Keeps P (some pin) level = record {
    run = (Keeps-call cfg answer P (gpio_set_level pin level) refl refl).run;
  }

  set_level-same :
      (pin : Option ℕ) (level : Bool) (d : Display)
      → (set_level cfg answer pin level d).1.runtime ≡ d.runtime
  unfolding set_level call
  set_level-same none level d = refl
  set_level-same (some pin) level d = refl

  pub set_backlight-Keeps : (P : Stage) (enabled : Bool) → K P P (set_backlight cfg answer enabled)
  unfolding set_backlight
  set_backlight-Keeps P enabled = set_level-Keeps P cfg.gpio_backlight _

  backlight-Keeps :
      (P : Stage) (enabled : Bool) → K P P (ignoring (set_backlight cfg answer enabled))
  unfolding set_backlight
  backlight-Keeps P enabled =
      ignoring-Keeps cfg answer P _ (set_level-same cfg.gpio_backlight _)
        (set_level-Keeps P cfg.gpio_backlight _)

  init_backlight-Keeps : K early early (init_backlight cfg answer)
  unfolding init_backlight
  init_backlight-Keeps = Keeps-if_configured cfg answer early cfg.gpio_backlight _ (λ pin.
      steady cfg answer early (Keeps-call cfg answer early (gpio_config pin) refl refl)
        (backlight-Keeps early false))

  backlight_on-Keeps : K opened opened (backlight_on cfg answer)
  unfolding backlight_on
  backlight_on-Keeps =
      Keeps-if_configured cfg answer opened cfg.gpio_backlight _
        (λ pin. backlight-Keeps opened true)

  reset_pulse-Keeps : (pin : ℕ) → K opened opened (reset_pulse cfg answer pin)
  unfolding reset_pulse
  reset_pulse-Keeps pin =
      search (steady cfg answer opened, Keeps-ignoring cfg answer opened) depth 20

  init_reset-Keeps : K opened opened (init_reset cfg answer)
  unfolding init_reset
  init_reset-Keeps = Keeps-if_configured cfg answer opened cfg.gpio_rst _ (λ pin.
      steady cfg answer opened (Keeps-call cfg answer opened (gpio_config pin) refl refl)
        (reset_pulse-Keeps pin))

  init_bus-Keeps : K early early (init_bus cfg answer)
  unfolding init_bus call
  init_bus-Keeps = record {
    run = λ d s p. (((Keeps-call cfg answer early _ refl refl).run d s p).0, λ h. tt);
  }

  init_panel_io-Keeps : (cb : Option ℕ) → K early opened (init_panel_io cfg answer cb)
  unfolding init_panel_io
  init_panel_io-Keeps cb = record { run = λ d s p. open-Keeps cfg answer _ refl refl d s }

  mark_initialized-Keeps : K opened opened (mark_initialized cfg answer)
  unfolding mark_initialized
  mark_initialized-Keeps = record {
    run = λ d s p. (
      record {
        sized = (refl, refl);
        direction = omega arith;
        ready = p;
        handle = s.handle;
        sent = s.sent;
      },
      λ h. p,
    );
  }

  turn-Keeps : (rotation : ℕ) → rotation < 4 → K opened opened (λ d. (esp_ok, turn cfg rotation d))
  unfolding turn
  turn-Keeps rotation h = record {
    run = λ d s p. (
      record {
        sized = ground arith;
        direction = ground arith;
        ready = ground (arith, s.ready);
        handle = ground (arith, s.handle);
        sent = ground (arith, s.sent);
      },
      λ e. ground (arith, p),
    );
  }

  rotation_madctl-lt : (rotation m : ℕ) → rotation_madctl cfg rotation ≡ some m → rotation < 4
  unfolding rotation_madctl
  rotation_madctl-lt rotation m h = ground (arith, h)

  rotate-Keeps :
      (rotation : ℕ) (m : Option ℕ)
      → rotation_madctl cfg rotation ≡ m
      → K opened opened (rotate cfg answer rotation m)
  unfolding rotate
  rotate-Keeps rotation none e = record { run = λ d s p. (s, λ h. p) }
  rotate-Keeps rotation (some m) e = record {
    run = λ d s p.
        then-Kept cfg answer opened opened _ (write cfg answer madctl (m ∷ []) d)
          ((Keeps-write cfg answer madctl (m ∷ [])).run d s p)
          (turn-Keeps rotation (rotation_madctl-lt rotation m e));
  }

  pub set_rotation-Keeps : (P : Stage) (rotation : ℕ) → K P P (set_rotation cfg answer rotation)
  unfolding set_rotation
  set_rotation-Keeps P rotation = record {
    run = if_initialized-Keeps cfg answer P _ (rotate-Keeps rotation _ refl);
  }

  send_region-Keeps :
      (x_start y_start x_end y_end : ℕ) (pixels : List ℕ)
      → K opened opened (send_region cfg answer x_start y_start x_end y_end pixels)
  unfolding send_region
  send_region-Keeps x_start y_start x_end y_end pixels = record {
    run = λ d s p.
        (steady cfg answer opened (Keeps-write cfg answer _ _) (
            steady cfg answer opened (Keeps-write cfg answer _ _)
              (Keeps-send cfg answer (tx_color _ _ _) refl))).run
          d s p;
  }

  check_region-Keeps :
      (x_start y_start x_end y_end : ℕ) (pixels : Option (List ℕ))
      → K opened opened (check_region cfg answer x_start y_start x_end y_end pixels)
  unfolding check_region
  check_region-Keeps x_start y_start x_end y_end none = record { run = λ d s p. (s, λ h. p) }
  check_region-Keeps x_start y_start x_end y_end (some pixels) = record {
    run = λ d s p.
        if_cases (Kept cfg answer opened) (is_bad_region d x_start y_start x_end y_end) _ _
          (λ e. (s, λ h. p))
          (λ e. (send_region-Keeps x_start y_start x_end y_end pixels).run d s p);
  }

  pub flush-Keeps :
      (P : Stage) (x_start y_start x_end y_end : ℕ) (pixels : Option (List ℕ))
      → K P P (flush cfg answer x_start y_start x_end y_end pixels)
  unfolding flush
  flush-Keeps P x_start y_start x_end y_end pixels = record {
    run =
        if_initialized-Keeps cfg answer P _ (check_region-Keeps x_start y_start x_end y_end pixels);
  }

  init_steps-Keeps : (cb : Option ℕ) → K early opened (init_steps cfg answer cb)
  unfolding init_steps
  init_steps-Keeps cb = Keeps-then cfg answer init_backlight-Keeps (
      Keeps-then cfg answer init_bus-Keeps (
        Keeps-then cfg answer (init_panel_io-Keeps cb) (
          search
            (
              steady cfg answer opened,
              init_reset-Keeps,
              panel_init-Keeps,
              mark_initialized-Keeps,
              backlight_on-Keeps,
            )
            depth 10)))

  pub init-Keeps : (cb : Option ℕ) → K early early (init cfg answer cb)
  unfolding init
  init-Keeps cb = record {
    run = λ d s p.
        if_cases (Kept cfg answer early) d.runtime.initialized _ _ (λ e. (s, λ h. tt))
          (λ e.
            if_cases (Kept cfg answer early) _ _ _ (λ f. (s, λ h. tt))
              (λ f.
                let ready = with_callback-IsSafe cfg answer cb d s in
                (((init_steps-Keeps cb).run _ ready tt).0, λ h. tt)));
  }
