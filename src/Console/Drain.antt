-- ===== src/Console/Drain.antt =====
-- common/console/log/agcore_console_log.c: the task of the log empties the buffer of EasyLogger.
use agcore.Prelude.{
  ℕ, zero, suc, ◌+◌, ◌<◌, List, [], ◌∷◌, ◌++◌, true, false, not, ltb, ◌==◌, ◌≡◌, inl, inr, refl, ap,
  sym, ◌∙◌, append_assoc, append-nil, if◌then◌else◌, if_cases, length, take, drop, take_all,
  length-append, eq-nil_of_length, arith, ◌-◌,
}
use agcore.Console.{
  Event, take_lock, give_lock, write, Terminal, ShellOps, LogOps, Console, amount, call, line_room,
  console_output_lock, console_output_unlock, console_output, output_loop, log_port_output,
  output_lines, shell_write_external,
}
use agcore.Console.Output.{IsWrite, received-append, console_output-Passed}
use agcore.Console.Lines.{received}

-- `write` passes on something of what it is given.
abbrev pub Writes : Terminal → Type 0
Writes terminal =
    (past : List Event) (bytes : List ℕ)
    → 0 < length bytes
    → 0 < amount (terminal.written past bytes)

-- The buffer holds bytes: what is taken out is their front, and it is empty only when they are, unless
-- there is no room. This is what elog_async_get_line_log does, as long as nothing else is logged.
pub record IsBuffer {L : Type 0} (elog : LogOps L) : Type 0 where
  pub contents : L → List ℕ
  pub pending_contents : (l : L) → elog.pending l ≡ length (contents l)
  pub in_order :
      (l : L) (room : ℕ)
      → contents l ≡ (elog.get_line l room).1 ++ contents (elog.get_line l room).0
  pub takes : (l : L) (room : ℕ) → 0 < room → length (elog.get_line l room).1 ≡ 0 → contents l ≡ []

module _ {S : Type 0} (terminal : Terminal) where
  output_loop-shell_ready :
      (rounds : ℕ) (bytes : List ℕ) (size offset : ℕ) (c : Console S)
      → (output_loop terminal rounds bytes size offset c).shell_ready ≡ c.shell_ready
  unfolding output_loop
  output_loop-shell_ready zero bytes size offset c = refl
  output_loop-shell_ready (suc rounds) bytes size offset c =
      let chunk = take (size - offset) (drop offset bytes) in
      let answer = terminal.written c.events chunk in
      let written : Console S = call (write chunk answer) c in
      let rest = output_loop terminal rounds bytes size (offset + amount answer) written in
      let Same : Console S → Type 0 = λ r. r.shell_ready ≡ c.shell_ready in
      if_cases Same (ltb offset size) (if amount answer == 0 then written else rest) c
        (λ more.
          if_cases Same (amount answer == 0) written rest (λ failed. refl)
            (λ wrote. output_loop-shell_ready rounds bytes size (offset + amount answer) written))
        (λ end. refl)

  console_output-shell_ready :
      (bytes : List ℕ) (size : ℕ) (c : Console S)
      → (console_output terminal bytes size c).shell_ready ≡ c.shell_ready
  unfolding console_output
  console_output-shell_ready bytes size c =
      if_cases (λ (r : Console S). r.shell_ready ≡ c.shell_ready) (not terminal.has_stdout) c
        (output_loop terminal size bytes size 0 c) (λ missing. refl)
        (λ there. output_loop-shell_ready size bytes size 0 c)

  module _ (ok : IsWrite terminal) (writes : Writes terminal)
      (there : terminal.has_stdout ≡ true) where
    -- All of the data are passed on.
    console_output-received :
        (bytes : List ℕ) (c : Console S)
        → received (console_output terminal bytes (length bytes) c).events
          ≡ received c.events ++ bytes
    console_output-received bytes c = elim (console_output-Passed terminal ok bytes c) [
      | inl missing ↦ absurd (ground (arith, there, missing))
      | inr (n, (le, (e, inl all))) ↦
          e
          ∙ ap (λ (k : ℕ). received c.events ++ take k bytes) all
          ∙ ap (λ (t : List ℕ). received c.events ++ t) (take_all bytes)
      | inr (n, (le, (e, inr (failed, (past, (chunk, (filled, nothing))))))) ↦
          absurd (omega (arith, writes past chunk filled, nothing))
    ]

    locked-received :
        (bytes : List ℕ) (c : Console S)
        → let out = console_output terminal bytes (length bytes) (console_output_lock c) in
          received (console_output_unlock out).events ≡ received c.events ++ bytes
    unfolding console_output_lock console_output_unlock
    locked-received bytes c =
        let locked : Console S = call take_lock c in
        let out = console_output terminal bytes (length bytes) locked in
        let same : received locked.events ≡ received c.events =
          received-append c.events (take_lock ∷ []) ∙ append-nil (received c.events) in
        received-append out.events (give_lock ∷ [])
        ∙ append-nil (received out.events)
        ∙ console_output-received bytes locked
        ∙ ap (λ (t : List ℕ). t ++ bytes) same

    module _ (ops : ShellOps S) {L : Type 0} (elog : LogOps L) (line_buf_size : ℕ) where
      -- The log reaches standard output itself while the shell is not there.
      log_port_output-received :
          (line : List ℕ) (c : Console S)
          → c.shell_ready ≡ false
          → ((log_port_output terminal ops line (length line) c).shell_ready ≡ false)
            × (received (log_port_output terminal ops line (length line) c).events
                ≡ received c.events ++ line)
      unfolding log_port_output console_output_lock console_output_unlock
      log_port_output-received line c no_shell =
          let locked : Console S = call take_lock c in
          let out = console_output terminal line (length line) locked in
          if_cases
            (λ (r : Console S).
              (r.shell_ready ≡ false) × (received r.events ≡ received c.events ++ line))
            c.shell_ready (shell_write_external terminal ops line (length line) c)
            (call give_lock out) (λ ready. absurd (ground (arith, ready, no_shell)))
            (λ missing. (
              console_output-shell_ready line (length line) locked ∙ no_shell,
              locked-received line c,
            ))

      output_lines-contents :
          (buffer : IsBuffer elog) (room : 0 < line_room line_buf_size) (rounds : ℕ) (l : L)
          (c : Console S)
          → length (buffer.contents l) < rounds
          → c.shell_ready ≡ false
          → (received (output_lines terminal ops elog line_buf_size rounds l c).1.events
              ≡ received c.events ++ buffer.contents l)
            × (buffer.contents (output_lines terminal ops elog line_buf_size rounds l c).0 ≡ [])
      unfolding output_lines
      output_lines-contents buffer room zero l c enough no_shell = absurd (omega arith)
      output_lines-contents buffer room (suc rounds) l c enough no_shell =
          let taken = elog.get_line l (line_room line_buf_size) in
          let shown = log_port_output terminal ops taken.1 (length taken.1) c in
          let order : buffer.contents l ≡ taken.1 ++ buffer.contents taken.0 =
            buffer.in_order l (line_room line_buf_size) in
          let lengths : length (buffer.contents l)
              ≡ length taken.1 + length (buffer.contents taken.0) =
            ap length order ∙ length-append taken.1 (buffer.contents taken.0) in
          let (ready, got) = log_port_output-received taken.1 c no_shell in
          if_cases
            (λ (r : L × Console S).
              (received r.1.events ≡ received c.events ++ buffer.contents l)
              × (buffer.contents r.0 ≡ []))
            (length taken.1 == 0) (taken.0, c)
            (output_lines terminal ops elog line_buf_size rounds taken.0 shown)
            (λ none.
              let empty : buffer.contents l ≡ [] =
                buffer.takes l (line_room line_buf_size) room (ground (arith, none)) in
              (
                sym (append-nil (received c.events))
                    ∙ ap (λ (t : List ℕ). received c.events ++ t) (sym empty),
                eq-nil_of_length (buffer.contents taken.0)
                    (omega (arith, ap length empty, lengths)),
              ))
            (λ some.
              let (rest, empty) =
                output_lines-contents buffer room rounds taken.0 shown
                  (ground (arith, some, lengths, enough)) ready in
              (
                rest
                    ∙ ap (λ (t : List ℕ). t ++ buffer.contents taken.0) got
                    ∙ append_assoc (received c.events) taken.1 (buffer.contents taken.0)
                    ∙ ap (λ (t : List ℕ). received c.events ++ t) (sym order),
                empty,
              ))

      -- Where `write` always passes on something, and the shell is not there to take the output: a round of
      -- the log's task, while nothing else is logged, gives to standard output all that the buffer of
      -- EasyLogger holds, in order, and leaves the buffer empty.
      pub output_lines-drains :
          (buffer : IsBuffer elog) (l : L) (c : Console S)
          → 0 < line_room line_buf_size
          → c.shell_ready ≡ false
          → (received
                (output_lines terminal ops elog line_buf_size (suc (elog.pending l)) l c).1.events
              ≡ received c.events ++ buffer.contents l)
            × (buffer.contents
                  (output_lines terminal ops elog line_buf_size (suc (elog.pending l)) l c).0
                ≡ [])
      output_lines-drains buffer l c room no_shell =
          output_lines-contents buffer room (suc (elog.pending l)) l c
            (omega (arith, buffer.pending_contents l)) no_shell
