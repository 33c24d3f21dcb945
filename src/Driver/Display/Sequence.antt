-- ===== src/Driver/Display/Sequence.antt =====
-- Actions that make the calls of a list in its order, up to the first that fails.
use agcore.Prelude.{
  ◌⊎◌, ℕ, ◌+◌, ◌≤◌, ◌≡◌, refl, ap, sym, ◌∙◌, Option, none, some, List, [], ◌∷◌, ◌++◌, append_assoc,
  append-nil, Bool, true, false, length, take, take_beyond, take_all, take_beyond, take_all,
  take_append_le, length-append, arith, if◌then◌else◌, inl, inr, Bool-cases, if_cases, not,
}
use agcore.Platform.{EspErr, esp_ok, invalid_state, is_ok}
use agcore.Driver.Display.{
  Call, Display, Answers, Act, and_then, ◌>>◌, return_ok, ignoring, call, is_configured,
  if_configured,
}

-- The calls for a pin that the build has.
abbrev pub for_pin : Option ℕ → (ℕ → List Call) → List Call
for_pin none f = []
for_pin (some pin) f = if is_configured (some pin) then f pin else []

-- The calls after an action are those before it and the first k of the list; all of them after ESP_OK.
abbrev pub Followed : List Call → Display → EspErr × Display → Type 0
Followed cs d o =
    (k : ℕ) × (k ≤ length cs)
    × (o.1.calls ≡ d.calls ++ take k cs)
    × ((is_ok o.0 ≡ false) ⊎ (k ≡ length cs))

pub record Follows (cs : List Call) (act : Act) : Type 0 where
  pub run : (d : Display) → Followed cs d (act d)

pub if_ok {ℓ} : {A : Type ℓ} {b : Bool} → (b ≡ false) ⊎ A → b ≡ true → A
if_ok (inl f) h = absurd (ground (arith, f, h))
if_ok (inr a) h = a

module _ (cs ds : List Call) (next : Act) (follows : Follows ds next) where
  and_then-Followed :
      (d : Display) (o : EspErr × Display)
      → Followed cs d o
      → Followed (cs ++ ds) d (and_then o next)
  and_then-Followed d (ret, e) (k, fits, calls, all) = elim (Bool-cases (is_ok ret)) [
    | inl okay ↦
        let (j, fits', calls', all') = follows.run e in
        rw okay (
          length cs + j,
          omega (arith, length-append cs ds),
          calls'
              ∙ ap (λ t. t ++ take j ds)
                  (calls
                    ∙ ap (λ n. d.calls ++ take n cs) (if_ok all okay)
                    ∙ ap (λ t. d.calls ++ t) (take_all cs))
              ∙ append_assoc d.calls cs (take j ds)
              ∙ ap (λ t. d.calls ++ t) (sym (take_beyond cs ds j)),
          elim all' [ inl f ↦ inl f | inr whole ↦ inr (omega (arith, length-append cs ds)) ],
        )
    | inr fails ↦ rw fails (
      k,
      omega (arith, length-append cs ds),
      calls ∙ ap (λ t. d.calls ++ t) (sym (take_append_le k cs ds fits)),
      inl fails,
    )
  ]

pub Follows-then :
    {cs ds : List Call} {act next : Act}
    → Follows cs act
    → Follows ds next
    → Follows (cs ++ ds) (act >> next)
unfolding ◌>>◌
Follows-then {cs} {ds} {act} {next} f g = record {
  run = λ d. and_then-Followed cs ds next g d (act d) (f.run d);
}

infixr 5 ◌⨟◌
abbrev pub ◌⨟◌ :
    {cs ds : List Call} {act next : Act}
    → Follows cs act
    → Follows ds next
    → Follows (cs ++ ds) (act >> next)
f ⨟ g = Follows-then f g

pub Follows-if :
    (b : Bool) (x y : Act) (cs ds : List Call)
    → Follows cs x
    → Follows ds y
    → Follows (if b then cs else ds) (if b then x else y)
Follows-if true x y cs ds f g = f
Follows-if false x y cs ds f g = g

pub Follows-return : Follows [] return_ok
unfolding return_ok
Follows-return = record { run = λ d. (0, omega arith, sym (append-nil d.calls), inr refl) }

module _ (answer : Answers) where
  pub Follows-call : (c : Call) → Follows (c ∷ []) (call answer c)
  unfolding call
  Follows-call c = record { run = λ d. (1, omega arith, refl, inr refl) }

  pub Follows-ignoring : (c : Call) → Follows (c ∷ []) (ignoring (call answer c))
  unfolding ignoring call
  Follows-ignoring c = record { run = λ d. (1, omega arith, refl, inr refl) }

pub Follows-if_configured :
    (pin : Option ℕ) (act : ℕ → Act) (f : ℕ → List Call)
    → ((p : ℕ) → pin ≡ some p → Follows (f p) (act p))
    → Follows (for_pin pin f) (if_configured pin act)
unfolding if_configured
Follows-if_configured none act f h = Follows-return
Follows-if_configured (some p) act f h =
    Follows-if (is_configured (some p)) (act p) return_ok (f p) [] (h p refl) Follows-return

-- A change of the state that makes no call.
pub quiet :
    (f : Display → Display)
    → ((d : Display) → (f d).calls ≡ d.calls)
    → Follows [] (λ d. (esp_ok, f d))
quiet f same = record { run = λ d. (0, omega arith, same d ∙ sym (append-nil d.calls), inr refl) }

-- An action behind the test of the initialisation.
pub guard_initialized :
    {cs : List Call} {act : Act}
    → Follows cs act
    → (d : Display)
    → Followed cs d (if not d.runtime.initialized then (invalid_state, d) else act d)
guard_initialized {cs} {act} f d =
    if_cases (Followed cs d) (not d.runtime.initialized) (invalid_state, d) (act d)
      (λ e. (0, omega arith, sym (append-nil d.calls), inl refl)) (λ e. f.run d)

-- What was initialised stays so, whatever the action returns.
pub record Stays (act : Act) : Type 0 where
  pub run : (d : Display) → d.runtime.initialized ≡ true → (act d).1.runtime.initialized ≡ true

-- With ESP_OK the display is initialised.
pub record Starts (act : Act) : Type 0 where
  pub run : (d : Display) → is_ok (act d).0 ≡ true → (act d).1.runtime.initialized ≡ true

pub Stays-then : {act next : Act} → Stays act → Stays next → Stays (act >> next)
unfolding ◌>>◌
Stays-then {act} {next} a n = record {
  run = λ d h.
      if_cases (λ (o : EspErr × Display). o.1.runtime.initialized ≡ true) (is_ok (act d).0)
        (next (act d).1) (act d) (λ e. n.run (act d).1 (a.run d h)) (λ e. a.run d h);
}

starts :
    {next : Act} (o : EspErr × Display)
    → Starts next
    → is_ok (and_then o next).0 ≡ true
    → (and_then o next).1.runtime.initialized ≡ true
starts (ret, e) n = elim (Bool-cases (is_ok ret)) [
  | inl f ↦ rw f (n.run e)
  | inr f ↦ rw f (λ h. absurd (ground (arith, h, f)))
]

pub Starts-then : (act : Act) {next : Act} → Starts next → Starts (act >> next)
unfolding ◌>>◌
Starts-then act n = record { run = λ d. starts (act d) n }

-- An action that does not change whether the display is initialised.
pub Stays-same :
    {act : Act}
    → ((d : Display) → (act d).1.runtime.initialized ≡ d.runtime.initialized)
    → Stays act
Stays-same same = record { run = λ d h. same d ∙ h }

pub initialized-and_then :
    (o : EspErr × Display) (next : Act) (b : Bool)
    → o.1.runtime.initialized ≡ b
    → ((d : Display) → (next d).1.runtime.initialized ≡ d.runtime.initialized)
    → (and_then o next).1.runtime.initialized ≡ b
initialized-and_then o next b h same =
    if_cases (λ (r : EspErr × Display). r.1.runtime.initialized ≡ b) (is_ok o.0) (next o.1) o
      (λ e. same o.1 ∙ h) (λ e. h)

pub Stays-if_configured :
    (pin : Option ℕ) (act : ℕ → Act) → ((p : ℕ) → Stays (act p)) → Stays (if_configured pin act)
unfolding if_configured return_ok
Stays-if_configured none act h = record { run = λ d e. e }
Stays-if_configured (some p) act h = record {
  run = λ d e.
      if_cases (λ (a : Act). (a d).1.runtime.initialized ≡ true) (is_configured (some p)) (act p)
        return_ok (λ f. (h p).run d e) (λ f. e);
}
