-- ===== src/Console.antt =====
-- common/console: the output under its lock (agcore_console_adapter.c), and the tasks of the log
-- (log/agcore_console_log.c) and of the shell (shell/agcore_console_shell.c) that share it. What the
-- tasks ask of the system is recorded in order; EasyLogger and letter-shell are parameters.
pub mod Output
pub mod Locking
pub mod Lines
pub mod Drain
use agcore.Prelude.{
  ℕ, zero, suc, ◌+◌, ◌-◌, List, [], ◌∷◌, ◌++◌, Option, none, some, Bool, true, false, not, ◌&&◌,
  ltb, ◌==◌, if◌then◌else◌, length, take, drop,
}

-- The levels of EasyLogger whose format agcore_log_init sets, and the two tasks.
pub data LogLevel : Type 0 where
  lvl_assert lvl_error lvl_warn lvl_info lvl_debug lvl_verbose : LogLevel

pub data Task : Type 0 where
  log_task shell_task : Task

pub data Glue : Type 0 where
  elog_set_fmt : LogLevel → Glue
  elog_start task_delay : Glue
  task_create : Task → Glue

-- A call: on the mutex of the output, on standard output (`write` with the bytes that it is given and its
-- answer, none where it is negative), or any other.
pub data Event : Type 0 where
  take_lock give_lock fsync : Event
  write : List ℕ → Option ℕ → Event
  glue : Glue → Event

-- Whether `fileno(stdout)` is a descriptor, and what `write` answers after the calls so far.
pub record Terminal : Type 0 where
  pub has_stdout : Bool
  pub written : List Event → List ℕ → Option ℕ

-- letter-shell: each operation gives the buffers that it passes to `shell->write`, in order.
pub record ShellOps (S : Type 0) : Type 0 where
  pub shell_init : S × List (List ℕ)
  pub handler : S → ℕ → S × List (List ℕ)
  pub write_end_line : S → List ℕ → ℕ → S × List (List ℕ)

-- The line that `elog_async_get_line_log` takes out of the buffer, and how much the buffer holds.
pub record LogOps (L : Type 0) : Type 0 where
  pub get_line : L → ℕ → L × List ℕ
  pub pending : L → ℕ

-- The statics of the three files, and the calls so far.
pub record Console (S : Type 0) : Type 0 where
  pub events : List Event
  pub output_lock : Bool
  pub log_notify : Bool
  pub shell : S
  pub shell_buffer : Bool
  pub shell_ready : Bool

-- The bytes that one `write` passed on.
abbrev pub amount : Option ℕ → ℕ
amount none = 0
amount (some n) = n

-- `AGCORE_LOG_TASK` reads lines of at most `ELOG_LINE_BUF_SIZE - 4` bytes.
abbrev pub line_room : ℕ → ℕ
line_room line_buf_size = line_buf_size - 4

module _ {S : Type 0} where
  abbrev pub call : Event → Console S → Console S
  call e c = record c { events = c.events ++ e ∷ [] }

  unfoldable pub console_output_lock : Console S → Console S
  console_output_lock c = call take_lock c

  unfoldable pub console_output_unlock : Console S → Console S
  console_output_unlock c = call give_lock c

  -- The mutex is made, or it is not.
  unfoldable pub console_output_init : Bool → Console S → Console S × Bool
  console_output_init mutex c = (record c { output_lock = mutex }, mutex)

  module _ (terminal : Terminal) where
    -- The loop, on the rounds left: `size` of them are enough.
    unfoldable pub output_loop : ℕ → List ℕ → ℕ → ℕ → Console S → Console S
    output_loop zero bytes size offset c = c
    output_loop (suc rounds) bytes size offset c =
        let chunk = take (size - offset) (drop offset bytes) in
        let answer = terminal.written c.events chunk in
        let written = call (write chunk answer) c in
        let rest = output_loop rounds bytes size (offset + amount answer) written in
        if ltb offset size then (if amount answer == 0 then written else rest) else c

    unfoldable pub console_output : List ℕ → ℕ → Console S → Console S
    console_output bytes size c =
        if not terminal.has_stdout then c else output_loop size bytes size 0 c

    unfoldable pub console_flush : Console S → Console S
    console_flush c = if terminal.has_stdout then call fsync c else c

    -- The flush that the shell makes under the lock.
    unfoldable pub flush_locked : Console S → Console S
    flush_locked c = console_output_unlock (console_flush (console_output_lock c))

    unfoldable pub shell_write : List ℕ → ℕ → Console S → Console S
    shell_write bytes len c =
        console_output_unlock (console_output bytes len (console_output_lock c))

    unfoldable pub write_all : List (List ℕ) → Console S → Console S
    write_all [] c = c
    write_all (bytes ∷ rest) c = write_all rest (shell_write bytes (length bytes) c)

    module _ (ops : ShellOps S) where
      unfoldable pub shell_write_external : List ℕ → ℕ → Console S → Console S
      shell_write_external bytes size c =
          let (shell', buffers) = ops.write_end_line c.shell bytes size in
          if not c.shell_ready
          then c
          else flush_locked (write_all buffers (record c { shell = shell' }))

      -- One round of agcore_shell_task: the character that was read, or none.
      unfoldable pub shell_round : Option ℕ → Console S → Console S
      shell_round none c = call (glue task_delay) c
      shell_round (some ch) c =
          let (shell', buffers) = ops.handler c.shell ch in
          flush_locked (write_all buffers (record c { shell = shell' }))

      unfoldable pub shell_task_rounds : List (Option ℕ) → Console S → Console S
      shell_task_rounds [] c = c
      shell_task_rounds (read ∷ reads) c = shell_task_rounds reads (shell_round read c)

      -- Whether the buffer was allocated decides. The answer is the result in C.
      unfoldable pub console_shell_init : Bool → Console S → Console S × Bool
      console_shell_init false c = (record c { shell_buffer = false }, false)
      console_shell_init true c =
          let (shell', buffers) = ops.shell_init in
          let opened = record c { shell = shell'; shell_buffer = true } in
          let flushed = flush_locked (write_all buffers opened) in
          (call (glue (task_create shell_task)) (record flushed { shell_ready = true }), true)

      unfoldable pub log_port_output : List ℕ → ℕ → Console S → Console S
      log_port_output log size c =
          if c.shell_ready
          then shell_write_external log size c
          else console_output_unlock (console_output log size (console_output_lock c))

      module _ {L : Type 0} (elog : LogOps L) (line_buf_size : ℕ) where
        -- The inner loop of agcore_log_output_task, on the rounds left.
        unfoldable pub output_lines : ℕ → L → Console S → L × Console S
        output_lines zero l c = (l, c)
        output_lines (suc rounds) l c =
            let (l', line) = elog.get_line l (line_room line_buf_size) in
            let rest = output_lines rounds l' (log_port_output line (length line) c) in
            if length line == 0 then (l', c) else rest

        -- A round for each notification, with the buffer that it finds.
        unfoldable pub log_task_rounds : List L → Console S → Console S
        log_task_rounds [] c = c
        log_task_rounds (l ∷ ls) c = log_task_rounds ls (output_lines (suc (elog.pending l)) l c).1

  abbrev set_formats : Console S → Console S
  set_formats c = call (glue (elog_set_fmt lvl_verbose)) (
      call (glue (elog_set_fmt lvl_debug)) (
        call (glue (elog_set_fmt lvl_info)) (
          call (glue (elog_set_fmt lvl_warn))
            (call (glue (elog_set_fmt lvl_error)) (call (glue (elog_set_fmt lvl_assert)) c)))))

  -- Whether the semaphore and the mutex are made, and whether elog_init answers ELOG_NO_ERR.
  unfoldable pub log_init : Bool → Bool → Bool → Console S → Console S
  log_init notify mutex elog_ok c =
      let (made, ok) = console_output_init mutex (record c { log_notify = notify }) in
      if not (notify && ok)
      then made
      else if not elog_ok
      then made
      else call (glue (task_create log_task)) (call (glue elog_start) (set_formats made))
