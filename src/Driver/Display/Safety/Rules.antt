-- ===== src/Driver/Display/Safety/Rules.antt =====
-- driver/display: actions that keep the display safe, and what they establish with ESP_OK.
use agcore.Prelude.{
  ℕ, ◌≡◌, refl, sym, subst, ◌∙◌, Option, none, some, List, [], ◌∷◌, ◌++◌, Bool, true, false, not,
  ◌||◌, if◌then◌else◌, arith, Bool-cases, if_cases, inl, inr,
}
use agcore.Platform.{EspErr, esp_ok, invalid_state, is_ok}
use agcore.Driver.Display.{
  Call, LcdCmd, tx_param, PanelConfig, Runtime, Display, Answers, Act, and_then, ◌>>◌, return_ok,
  ignoring, call, if_configured, is_configured,
}
use agcore.Driver.Display.Safety.{is_tx, is_open, IsSafe, handle_after_last, ordered_last, ordered}

-- What the code before an action has made sure of.
pub data Stage : Type 0 where
  early : Stage
  opened : Stage

abbrev pub Holds : Stage → Runtime → Type 0
Holds early r = Unit {0}
Holds opened r = r.panel_io ≡ true

or_true : (b : Bool) → (b || true) ≡ true
or_true true = refl
or_true false = refl

module _ (cfg : PanelConfig) (answer : Answers) where
  -- From a safe display and P the action leaves a safe one, and Q with ESP_OK.
  abbrev pub Kept : Stage → EspErr × Display → Type 0
  Kept Q o = IsSafe answer cfg o.1 × ((is_ok o.0 ≡ true) → Holds Q o.1.runtime)

  pub record Keeps (P Q : Stage) (act : Act) : Type 0 where
    pub run : (d : Display) → IsSafe answer cfg d → Holds P d.runtime → Kept Q (act d)

  pub call-IsSafe :
      (c : Call) (d : Display)
      → is_open c ≡ false
      → (not (is_tx c) || d.runtime.panel_io) ≡ true
      → IsSafe answer cfg d
      → IsSafe answer cfg (call answer c d).1
  unfolding call
  call-IsSafe c d closed allowed s = record {
    sized = s.sized;
    direction = s.direction;
    ready = s.ready;
    handle = handle_after_last answer [] false d.calls c ∙ ground (arith, s.handle, closed);
    sent = ordered_last answer [] false d.calls c s.sent (rw s.handle allowed);
  }

  pub then-Kept :
      (Q R : Stage) (next : Act) (o : EspErr × Display)
      → Kept Q o
      → Keeps Q R next
      → Kept R (and_then o next)
  then-Kept Q R next (ret, d) (s, q) n = elim (Bool-cases (is_ok ret)) [
    | inl e ↦ rw e (n.run d s (q e))
    | inr e ↦ rw e (s, λ h. absurd (ground (arith, h, e)))
  ]

  pub Keeps-then :
      {P Q R : Stage} {act next : Act} → Keeps P Q act → Keeps Q R next → Keeps P R (act >> next)
  unfolding ◌>>◌
  Keeps-then {P} {Q} {R} {act} {next} a n = record {
    run = λ d s p. then-Kept Q R next (act d) (a.run d s p) n;
  }

  pub Keeps-return : (P : Stage) → Keeps P P return_ok
  unfolding return_ok
  Keeps-return P = record { run = λ d s p. (s, λ h. p) }

  pub Keeps-call :
      (P : Stage) (c : Call) → is_open c ≡ false → is_tx c ≡ false → Keeps P P (call answer c)
  unfolding call
  Keeps-call P c closed silent = record {
    run = λ d s p. (call-IsSafe c d closed (ground (arith, silent)) s, λ h. p);
  }

  pub Keeps-ignoring :
      (P : Stage) (c : Call)
      → is_open c ≡ false
      → is_tx c ≡ false
      → Keeps P P (ignoring (call answer c))
  unfolding ignoring call
  Keeps-ignoring P c closed silent = record {
    run = λ d s p. (call-IsSafe c d closed (ground (arith, silent)) s, λ h. p);
  }

  pub Keeps-write :
      (command : LcdCmd) (bytes : List ℕ)
      → Keeps opened opened (call answer (tx_param command bytes))
  unfolding call
  Keeps-write command bytes = record {
    run = λ d s p. (call-IsSafe (tx_param command bytes) d refl p s, λ h. p);
  }

  pub Keeps-if :
      (P Q : Stage) (b : Bool) (x y : Act)
      → Keeps P Q x
      → Keeps P Q y
      → Keeps P Q (if b then x else y)
  Keeps-if P Q true x y k l = k
  Keeps-if P Q false x y k l = l

  -- A sequence whose parts need and leave the same.
  pub steady :
      (P : Stage) {act next : Act} → Keeps P P act → Keeps P P next → Keeps P P (act >> next)
  steady P a n = Keeps-then a n

  pub Keeps-if_configured :
      (P : Stage) (pin : Option ℕ) (act : ℕ → Act)
      → ((p : ℕ) → Keeps P P (act p))
      → Keeps P P (if_configured pin act)
  unfolding if_configured
  Keeps-if_configured P none act k = Keeps-return P
  Keeps-if_configured P (some p) act k =
      Keeps-if P P (is_configured (some p)) (act p) return_ok (k p) (Keeps-return P)

  -- An action that does not touch the runtime, whatever it returns.
  pub ignoring-Keeps :
      (P : Stage) (act : Act)
      → ((d : Display) → (act d).1.runtime ≡ d.runtime)
      → Keeps P P act
      → Keeps P P (ignoring act)
  unfolding ignoring
  ignoring-Keeps P act same k = record {
    run = λ d s p. ((k.run d s p).0, λ h. subst (Holds P) (sym (same d)) p);
  }

  pub Keeps-send : (c : Call) → is_open c ≡ false → Keeps opened opened (call answer c)
  unfolding call
  Keeps-send c closed = record {
    run = λ d s p. (call-IsSafe c d closed (rw p (or_true (not (is_tx c)))) s, λ h. p);
  }

  -- The call that makes the handle, with what the code records after it.
  pub open-Keeps :
      (c : Call)
      → is_open c ≡ true
      → is_tx c ≡ false
      → (d : Display) → IsSafe answer cfg d
      → Kept opened (
          and_then
            (call answer c d)
            (λ e. (esp_ok, record e { runtime = record e.runtime { panel_io = true } })))
  unfolding call
  open-Keeps c opens silent d s =
      let last = handle_after_last answer [] false d.calls c in
      let sends : ordered answer [] false (d.calls ++ c ∷ []) ≡ true =
        ordered_last answer [] false d.calls c s.sent (ground (arith, silent)) in
      elim (Bool-cases (is_ok (answer d.calls c))) [
        | inl e ↦ rw e (
          record {
            sized = s.sized;
            direction = s.direction;
            ready = or_true (not d.runtime.initialized);
            handle = last ∙ ground (arith, opens, e);
            sent = sends;
          },
          λ h. refl,
        )
        | inr e ↦ rw e (
          record {
            sized = s.sized;
            direction = s.direction;
            ready = s.ready;
            handle = last ∙ ground (arith, opens, e, s.handle);
            sent = sends;
          },
          λ h. absurd (ground (arith, h, e)),
        )
      ]

  weaken : (P : Stage) (r : Runtime) → Holds opened r → Holds P r
  weaken early r h = tt
  weaken opened r h = h

  -- `if (!g_runtime.initialized) return ESP_ERR_INVALID_STATE;`: what is initialised has a handle.
  pub if_initialized-Keeps :
      (P : Stage) (act : Act)
      → Keeps opened opened act
      → (d : Display) → IsSafe answer cfg d
      → Holds P d.runtime
      → Kept P (if not d.runtime.initialized then (invalid_state, d) else act d)
  if_initialized-Keeps P act k d s p =
      if_cases (Kept P) (not d.runtime.initialized) (invalid_state, d) (act d) (λ e. (s, λ h. p))
        (λ e.
          let r : Kept opened (act d) = k.run d s (ground (arith, s.ready, e)) in
          (r.0, λ h. weaken P (act d).1.runtime (r.1 h)))

  -- A field of the runtime that nothing else depends on.
  pub with_callback-IsSafe :
      (cb : Option ℕ) (d : Display)
      → IsSafe answer cfg d
      → IsSafe answer cfg (record d { runtime = record d.runtime { flush_done_cb = cb } })
  with_callback-IsSafe cb d s = record {
    sized = s.sized;
    direction = s.direction;
    ready = s.ready;
    handle = s.handle;
    sent = s.sent;
  }

  pub with_task-IsSafe :
      (task : Bool) (d : Display)
      → IsSafe answer cfg d
      → IsSafe answer cfg (record d { runtime = record d.runtime { test_task = task } })
  with_task-IsSafe task d s = record {
    sized = s.sized;
    direction = s.direction;
    ready = s.ready;
    handle = s.handle;
    sent = s.sent;
  }
