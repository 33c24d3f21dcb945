-- ===== src/Console/Locking.antt =====
-- common/console: the lock of the output around every write, in the tasks of the log and of the shell.
use agcore.Prelude.{
  ℕ, zero, suc, ◌+◌, ◌-◌, List, [], ◌∷◌, ◌++◌, Option, none, some, Bool, true, false, not, ltb,
  ◌==◌, ◌≡◌, if_cases, if◌then◌else◌, length, take, drop, ap,
}
use agcore.Console.{
  Event, take_lock, give_lock, fsync, write, glue, Terminal, ShellOps, LogOps, Console, amount,
  call, console_output_lock, console_output_unlock, output_loop, console_output, console_flush,
  flush_locked, shell_write, write_all, shell_write_external, shell_round, shell_task_rounds,
  log_port_output, output_lines, log_task_rounds, line_room, task_delay,
}

-- Whether the lock is held after the calls, or none where one of them is not allowed: the lock is taken
-- twice or given without being held, or the output is used without it.
unfoldable pub lock_after : Bool → List Event → Option Bool
lock_after held [] = some held
lock_after false (take_lock ∷ es) = lock_after true es
lock_after true (take_lock ∷ es) = none
lock_after false (give_lock ∷ es) = none
lock_after true (give_lock ∷ es) = lock_after false es
lock_after false (fsync ∷ es) = none
lock_after true (fsync ∷ es) = lock_after true es
lock_after false (write bytes answer ∷ es) = none
lock_after true (write bytes answer ∷ es) = lock_after true es
lock_after false (glue g ∷ es) = lock_after false es
lock_after true (glue g ∷ es) = lock_after true es

lock_after-append :
    (held now : Bool) (es fs : List Event)
    → lock_after held es ≡ some now
    → lock_after held (es ++ fs) ≡ lock_after now fs
unfolding lock_after
lock_after-append held now [] fs h = cc
lock_after-append false now (take_lock ∷ es) fs h = lock_after-append true now es fs h
lock_after-append true now (take_lock ∷ es) fs h = cc
lock_after-append false now (give_lock ∷ es) fs h = cc
lock_after-append true now (give_lock ∷ es) fs h = lock_after-append false now es fs h
lock_after-append false now (fsync ∷ es) fs h = cc
lock_after-append true now (fsync ∷ es) fs h = lock_after-append true now es fs h
lock_after-append false now (write bytes answer ∷ es) fs h = cc
lock_after-append true now (write bytes answer ∷ es) fs h = lock_after-append true now es fs h
lock_after-append false now (glue g ∷ es) fs h = lock_after-append false now es fs h
lock_after-append true now (glue g ∷ es) fs h = lock_after-append true now es fs h

-- The calls so far use the lock well, and it is held or not.
unfoldable pub Locks : {S : Type 0} → Bool → Console S → Type 0
Locks held c = lock_after false c.events ≡ some held

pub start-Locks : {S : Type 0} (c : Console S) → c.events ≡ [] → Locks false c
unfolding lock_after Locks
start-Locks c e = ap (λ (es : List Event). lock_after false es) e

module _ {S : Type 0} where
  if-Locks :
      (held : Bool) (b : Bool) (x y : Console S)
      → Locks held x
      → Locks held y
      → Locks held (if b then x else y)
  if-Locks held true x y p q = p
  if-Locks held false x y p q = q

  lock-Locks : (c : Console S) → Locks false c → Locks true (console_output_lock c)
  unfolding lock_after Locks console_output_lock
  lock-Locks c h = lock_after-append false false c.events (take_lock ∷ []) h

  unlock-Locks : (c : Console S) → Locks true c → Locks false (console_output_unlock c)
  unfolding lock_after Locks console_output_unlock
  unlock-Locks c h = lock_after-append false true c.events (give_lock ∷ []) h

  delay-Locks : (c : Console S) → Locks false c → Locks false (call (glue task_delay) c)
  unfolding lock_after Locks
  delay-Locks c h = lock_after-append false false c.events (glue task_delay ∷ []) h

  write-Locks :
      (bytes : List ℕ) (answer : Option ℕ) (c : Console S)
      → Locks true c
      → Locks true (call (write bytes answer) c)
  unfolding lock_after Locks
  write-Locks bytes answer c h = lock_after-append false true c.events (write bytes answer ∷ []) h

  -- What letter-shell does with its own state makes no call.
  with_shell-Locks :
      (held : Bool) (c : Console S) (s : S) → Locks held c → Locks held (record c { shell = s })
  unfolding Locks
  with_shell-Locks held c s h = h

  module _ (terminal : Terminal) where
    output_loop-Locks :
        (rounds : ℕ) (bytes : List ℕ) (size offset : ℕ) (c : Console S)
        → Locks true c
        → Locks true (output_loop terminal rounds bytes size offset c)
    unfolding output_loop
    output_loop-Locks zero bytes size offset c h = h
    output_loop-Locks (suc rounds) bytes size offset c h =
        let chunk = take (size - offset) (drop offset bytes) in
        let answer = terminal.written c.events chunk in
        let written : Console S = call (write chunk answer) c in
        let rest = output_loop terminal rounds bytes size (offset + amount answer) written in
        let wrote : Locks true written = write-Locks chunk answer c h in
        if-Locks true (ltb offset size) (if amount answer == 0 then written else rest) c
          (if-Locks true (amount answer == 0) written rest wrote
            (output_loop-Locks rounds bytes size (offset + amount answer) written wrote))
          h

    console_output-Locks :
        (bytes : List ℕ) (size : ℕ) (c : Console S)
        → Locks true c
        → Locks true (console_output terminal bytes size c)
    unfolding console_output
    console_output-Locks bytes size c h =
        if-Locks true (not terminal.has_stdout) c (output_loop terminal size bytes size 0 c) h
          (output_loop-Locks size bytes size 0 c h)

    console_flush-Locks : (c : Console S) → Locks true c → Locks true (console_flush terminal c)
    unfolding lock_after Locks console_flush
    console_flush-Locks c h =
        if-Locks true terminal.has_stdout (call fsync c) c
          (lock_after-append false true c.events (fsync ∷ []) h) h

    flush_locked-Locks : (c : Console S) → Locks false c → Locks false (flush_locked terminal c)
    unfolding flush_locked
    flush_locked-Locks c h = unlock-Locks _ (console_flush-Locks _ (lock-Locks c h))

    shell_write-Locks :
        (bytes : List ℕ) (len : ℕ) (c : Console S)
        → Locks false c
        → Locks false (shell_write terminal bytes len c)
    unfolding shell_write
    shell_write-Locks bytes len c h =
        unlock-Locks _ (console_output-Locks bytes len _ (lock-Locks c h))

    write_all-Locks :
        (buffers : List (List ℕ)) (c : Console S)
        → Locks false c
        → Locks false (write_all terminal buffers c)
    unfolding write_all
    write_all-Locks [] c h = h
    write_all-Locks (bytes ∷ rest) c h = write_all-Locks rest _ (shell_write-Locks bytes _ c h)

    module _ (ops : ShellOps S) where
      shell_write_external-Locks :
          (bytes : List ℕ) (size : ℕ) (c : Console S)
          → Locks false c
          → Locks false (shell_write_external terminal ops bytes size c)
      unfolding shell_write_external
      shell_write_external-Locks bytes size c h =
          let (shell', buffers) = ops.write_end_line c.shell bytes size in
          let heard : Console S = record c { shell = shell' } in
          let written = write_all terminal buffers heard in
          if-Locks false (not c.shell_ready) c (flush_locked terminal written) h (
            flush_locked-Locks written
              (write_all-Locks buffers heard (with_shell-Locks false c shell' h)))

      shell_round-Locks :
          (read : Option ℕ) (c : Console S)
          → Locks false c
          → Locks false (shell_round terminal ops read c)
      unfolding shell_round
      shell_round-Locks none c h = delay-Locks c h
      shell_round-Locks (some ch) c h =
          let (shell', buffers) = ops.handler c.shell ch in
          let heard : Console S = record c { shell = shell' } in
          flush_locked-Locks (write_all terminal buffers heard)
            (write_all-Locks buffers heard (with_shell-Locks false c shell' h))

      pub shell_task_rounds-Locks :
          (reads : List (Option ℕ)) (c : Console S)
          → Locks false c
          → Locks false (shell_task_rounds terminal ops reads c)
      unfolding shell_task_rounds
      shell_task_rounds-Locks [] c h = h
      shell_task_rounds-Locks (read ∷ reads) c h =
          shell_task_rounds-Locks reads (shell_round terminal ops read c)
            (shell_round-Locks read c h)

      log_port_output-Locks :
          (log : List ℕ) (size : ℕ) (c : Console S)
          → Locks false c
          → Locks false (log_port_output terminal ops log size c)
      unfolding log_port_output shell_write
      log_port_output-Locks log size c h =
          if-Locks false c.shell_ready (shell_write_external terminal ops log size c)
            (shell_write terminal log size c) (shell_write_external-Locks log size c h)
            (shell_write-Locks log size c h)

      module _ {L : Type 0} (elog : LogOps L) (line_buf_size : ℕ) where
        output_lines-Locks :
            (rounds : ℕ) (l : L) (c : Console S)
            → Locks false c
            → Locks false (output_lines terminal ops elog line_buf_size rounds l c).1
        unfolding output_lines
        output_lines-Locks zero l c h = h
        output_lines-Locks (suc rounds) l c h =
            let taken = elog.get_line l (line_room line_buf_size) in
            let shown = log_port_output terminal ops taken.1 (length taken.1) c in
            if_cases (λ (r : L × Console S). Locks false r.1) (length taken.1 == 0) (taken.0, c)
              (output_lines terminal ops elog line_buf_size rounds taken.0 shown) (λ empty. h)
              (λ line.
                output_lines-Locks rounds taken.0 shown
                  (log_port_output-Locks taken.1 (length taken.1) c h))

        pub log_task_rounds-Locks :
            (ls : List L) (c : Console S)
            → Locks false c
            → Locks false (log_task_rounds terminal ops elog line_buf_size ls c)
        unfolding log_task_rounds
        log_task_rounds-Locks [] c h = h
        log_task_rounds-Locks (l ∷ ls) c h =
            log_task_rounds-Locks ls _ (output_lines-Locks (suc (elog.pending l)) l c h)
