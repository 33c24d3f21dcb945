-- ===== src/Console/Output.antt =====
-- common/console/agcore_console_adapter.c: what agcore_console_output passes on to standard output.
use agcore.Prelude.{
  ℕ, zero, suc, ◌+◌, ◌-◌, ◌≤◌, ◌<◌, List, [], ◌∷◌, ◌++◌, Option, Bool, true, false, not, ltb, ◌==◌,
  ◌≡◌, ◌⊎◌, inl, inr, refl, ap, sym, ◌∙◌, append_assoc, append-nil, if◌then◌else◌, Bool-cases,
  length, take, drop, take_eq_self, drop-drop, subst, if_cases, length-drop, arith,
}
use agcore.Console.{
  Event, take_lock, give_lock, fsync, write, glue, Terminal, Console, amount, call, output_loop,
  console_output,
}
use agcore.Console.Lines.{received}

-- `write` passes on at most the bytes that it is given.
abbrev pub IsWrite : Terminal → Type 0
IsWrite terminal =
    (past : List Event) (bytes : List ℕ) → amount (terminal.written past bytes) ≤ length bytes

-- The last call is a `write` that passed nothing on.
abbrev pub ends_in_failure : List Event → Bool
ends_in_failure [] = false
ends_in_failure (write bytes answer ∷ []) = amount answer == 0
ends_in_failure (take_lock ∷ []) = false
ends_in_failure (give_lock ∷ []) = false
ends_in_failure (fsync ∷ []) = false
ends_in_failure (glue g ∷ []) = false
ends_in_failure (e ∷ f ∷ es) = ends_in_failure (f ∷ es)

ends_in_failure-write :
    (es : List Event) (bytes : List ℕ) (answer : Option ℕ)
    → ends_in_failure (es ++ write bytes answer ∷ []) ≡ (amount answer == 0)
ends_in_failure-write [] bytes answer = refl
ends_in_failure-write (e ∷ []) bytes answer = refl
ends_in_failure-write (e ∷ f ∷ es) bytes answer = ends_in_failure-write (f ∷ es) bytes answer

pub received-append : (es fs : List Event) → received (es ++ fs) ≡ received es ++ received fs
received-append [] fs = refl
received-append (take_lock ∷ es) fs = received-append es fs
received-append (give_lock ∷ es) fs = received-append es fs
received-append (fsync ∷ es) fs = received-append es fs
received-append (write bytes answer ∷ es) fs =
    ap (λ (t : List ℕ). take (amount answer) bytes ++ t) (received-append es fs)
    ∙ sym (append_assoc (take (amount answer) bytes) (received es) (received fs))
received-append (glue g ∷ es) fs = received-append es fs

-- The last `write` passed nothing on although it was given something.
abbrev pub Fails : Terminal → List Event → Type 0
Fails terminal after =
    (ends_in_failure after ≡ true)
    × ((past : List Event) × ((bytes : List ℕ) × ((0 < length bytes)
            × (amount (terminal.written past bytes) ≡ 0))))

-- The first `n` of the bytes follow on what was received; all of them did, or the last write failed.
abbrev pub Passed : Terminal → List ℕ → List Event → List Event → Type 0
Passed terminal bytes before after =
    (n : ℕ) × ((n ≤ length bytes)
      × ((received after ≡ received before ++ take n bytes)
          × ((n ≡ length bytes) ⊎ Fails terminal after)))

take-append_drop : (m n : ℕ) (xs : List ℕ) → take m xs ++ take n (drop m xs) ≡ take (m + n) xs
take-append_drop zero n xs = let e : n ≡ 0 + n = omega arith in ap (λ k. take k xs) e
take-append_drop (suc m) zero [] = let e : suc m + 0 ≡ suc m = omega arith in rw e refl
take-append_drop (suc m) (suc n) [] =
    let e : suc m + suc n ≡ suc (m + suc n) = omega arith in rw e refl
take-append_drop (suc m) n (x ∷ xs) =
    let e : suc m + n ≡ suc (m + n) = omega arith in
    rw e (ap (λ t. x ∷ t) (take-append_drop m n xs))

received-write :
    (es : List Event) (bytes : List ℕ) (answer : Option ℕ)
    → received (es ++ write bytes answer ∷ []) ≡ received es ++ take (amount answer) bytes
received-write es bytes answer =
    received-append es (write bytes answer ∷ [])
    ∙ ap (λ (t : List ℕ). received es ++ t) (append-nil (take (amount answer) bytes))

-- A part that was passed on, and then what follows it.
extend-Passed :
    (terminal : Terminal) (a : ℕ) (bytes : List ℕ) (before mid after : List Event)
    → a ≤ length bytes
    → received mid ≡ received before ++ take a bytes
    → Passed terminal (drop a bytes) mid after
    → Passed terminal bytes before after
extend-Passed terminal a bytes before mid after fits e (n, (le, (f, end))) = (
  a + n,
  (
    omega (arith, le, length-drop a bytes),
    (
      f
          ∙ ap (λ (t : List ℕ). t ++ take n (drop a bytes)) e
          ∙ append_assoc (received before) (take a bytes) (take n (drop a bytes))
          ∙ ap (λ (t : List ℕ). received before ++ t) (take-append_drop a n bytes),
      elim end [
        | inl all ↦ inl (omega (arith, all, length-drop a bytes))
        | inr failed ↦ inr failed
      ],
    ),
  ),
)

-- Nothing more was passed on.
stop-Passed :
    (terminal : Terminal) (bytes : List ℕ) (before after : List Event)
    → received after ≡ received before
    → (0 ≡ length bytes) ⊎ Fails terminal after
    → Passed terminal bytes before after
stop-Passed terminal bytes before after e end =
    (0, (omega arith, (e ∙ sym (append-nil (received before)), end)))

module _ {S : Type 0} (terminal : Terminal) (ok : IsWrite terminal) where
  output_loop-Passed :
      (rounds : ℕ) (bytes : List ℕ) (offset : ℕ) (c : Console S)
      → offset ≤ length bytes
      → length bytes ≤ offset + rounds
      → Passed terminal
          (drop offset bytes)
          c.events
          (output_loop terminal rounds bytes (length bytes) offset c).events
  unfolding output_loop
  output_loop-Passed zero bytes offset c le enough =
      stop-Passed terminal (drop offset bytes) c.events c.events refl
        (inl (omega (arith, length-drop offset bytes)))
  output_loop-Passed (suc rounds) bytes offset c le enough =
      let size = length bytes in
      let left = drop offset bytes in
      let chunk = take (size - offset) left in
      let answer = terminal.written c.events chunk in
      let a = amount answer in
      let written : Console S = call (write chunk answer) c in
      let rest = output_loop terminal rounds bytes size (offset + a) written in
      let whole : chunk ≡ left =
        take_eq_self (size - offset) left (omega (arith, length-drop offset bytes)) in
      let fits : a ≤ length left = subst (λ (t : List ℕ). a ≤ length t) whole (ok c.events chunk) in
      let got : received written.events ≡ received c.events ++ take a left =
        received-write c.events chunk answer
        ∙ ap (λ (t : List ℕ). received c.events ++ take a t) whole in
      let filled : ltb offset size ≡ true → 0 < length chunk =
        λ more. ground (arith, more, ap length whole, length-drop offset bytes) in
      if_cases (λ (r : Console S). Passed terminal left c.events r.events) (ltb offset size)
        (if a == 0 then written else rest) c
        (λ more.
          if_cases (λ (r : Console S). Passed terminal left c.events r.events) (a == 0) written rest
            (λ failed.
              extend-Passed terminal a left c.events written.events written.events fits got (
                stop-Passed terminal (drop a left) written.events written.events refl (
                  inr (
                    ends_in_failure-write c.events chunk answer ∙ failed,
                    (c.events, (chunk, (filled more, ground (arith, failed)))),
                  ))))
            (λ wrote. extend-Passed terminal a left c.events written.events rest.events fits got (
              subst (λ (t : List ℕ). Passed terminal t written.events rest.events)
                (sym (drop-drop a offset bytes))
                (output_loop-Passed rounds bytes (offset + a) written
                  (omega (arith, fits, length-drop offset bytes))
                  (ground (arith, wrote, enough))))))
        (λ end.
          stop-Passed terminal left c.events c.events refl
            (inl (ground (arith, end, length-drop offset bytes))))

  -- Where `write` passes on at most the bytes that it is given, and standard output has a descriptor:
  -- after agcore_console_output, the first bytes of the data follow on what had been received, and they
  -- are all of the data, or the last call is a `write` that passed nothing on, as it answers at least
  -- once to bytes that it is given.
  pub console_output-Passed :
      (bytes : List ℕ) (c : Console S)
      → (terminal.has_stdout ≡ false)
        ⊎ Passed terminal bytes c.events (console_output terminal bytes (length bytes) c).events
  unfolding console_output
  console_output-Passed bytes c = elim (Bool-cases terminal.has_stdout) [
    | inl there ↦ inr (
        if_cases (λ (r : Console S). Passed terminal bytes c.events r.events)
          (not terminal.has_stdout) c (output_loop terminal (length bytes) bytes (length bytes) 0 c)
          (λ missing. absurd (ground (arith, there, missing)))
          (λ opened. output_loop-Passed (length bytes) bytes 0 c (omega arith) (omega arith)))
    | inr missing ↦ inl missing
  ]
