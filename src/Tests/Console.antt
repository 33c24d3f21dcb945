-- ===== src/Tests/Console.antt =====
-- common/console at concrete inputs: a log line and a key that is echoed.
use agcore.Prelude.{
  ℕ, suc, List, [], ◌∷◌, ◌++◌, zero, ◌<◌, sym, take, drop, take-append-drop, ◌≡◌, ◌⊎◌, Option, none,
  some, false, true, refl, length, arith,
}
use agcore.Console.{
  console_shell_init, log_init, console_output_init, Event, take_lock, give_lock, fsync, write,
  glue, task_delay, Terminal, ShellOps, LogOps, Console, console_output, shell_task_rounds,
  log_task_rounds, output_loop, console_output_lock, console_output_unlock, console_flush,
  flush_locked, shell_write, write_all, shell_round, log_port_output, output_lines,
}
use agcore.Console.Output.{IsWrite, Passed, console_output-Passed}
use agcore.Console.Drain.{Writes, IsBuffer, output_lines-drains}
use agcore.Console.Lines.{
  received, Runs, finish, log_takes, log_gives, log_acts, shell_takes, shell_gives, shell_acts,
  free_write, free_fsync, free_glue, InSections, log_task_rounds-InSections,
}

-- It passes on one byte at a time.
abbrev first_byte : List ℕ → Option ℕ
first_byte [] = some 0
first_byte (b ∷ bs) = some 1

abbrev tty : Terminal
tty = record { has_stdout = true; written = λ past bytes. first_byte bytes }

tty-IsWrite : IsWrite tty
tty-IsWrite past [] = omega arith
tty-IsWrite past (b ∷ bs) = omega arith

abbrev echo : ShellOps ℕ
echo = record {
  shell_init = (0, []);
  handler = λ s ch. (suc s, (ch ∷ []) ∷ []);
  write_end_line = λ s bytes size. (s, bytes ∷ []);
}

-- A buffer without newlines.
abbrev elog : LogOps (List ℕ)
elog = record { get_line = λ bytes room. (drop room bytes, take room bytes); pending = length }

elog-takes : (bytes : List ℕ) (room : ℕ) → 0 < room → length (take room bytes) ≡ 0 → bytes ≡ []
elog-takes [] room h e = refl
elog-takes (b ∷ bs) zero h e = absurd (omega arith)
elog-takes (b ∷ bs) (suc room) h e = absurd (omega arith)

abbrev elog_buffer : IsBuffer elog
elog_buffer = record {
  contents = λ bytes. bytes;
  pending_contents = λ bytes. refl;
  in_order = λ bytes room. sym (take-append-drop room bytes);
  takes = elog-takes;
}

tty-Writes : Writes tty
tty-Writes past [] h = absurd (omega arith)
tty-Writes past (b ∷ bs) h = omega arith

abbrev idle : Console ℕ
idle = record {
  events = [];
  output_lock = true;
  log_notify = true;
  shell = 0;
  shell_buffer = true;
  shell_ready = false;
}

abbrev waiting : List (List ℕ)
waiting = (65 ∷ 10 ∷ []) ∷ []

abbrev keys : List (Option ℕ)
keys = none ∷ some 66 ∷ []

abbrev trace : List Event
trace =
    take_lock
    ∷ write (65 ∷ 10 ∷ []) (some 1)
    ∷ glue task_delay
    ∷ write (10 ∷ []) (some 1)
    ∷ give_lock
    ∷ take_lock
    ∷ write (66 ∷ []) (some 1)
    ∷ give_lock
    ∷ take_lock
    ∷ fsync
    ∷ give_lock
    ∷ []

run :
    Runs none
      (log_task_rounds tty echo elog 64 waiting idle).events
      (shell_task_rounds tty echo keys idle).events
      trace
unfolding log_task_rounds shell_task_rounds output_lines log_port_output shell_round write_all
    shell_write flush_locked console_flush console_output output_loop console_output_lock
    console_output_unlock
run = log_takes (
    log_acts free_write (
      shell_acts free_glue (
        log_acts free_write (
          log_gives (
            shell_takes (
              shell_acts free_write
                (shell_gives (shell_takes (shell_acts free_fsync (shell_gives finish))))))))))

log_task_rounds-InSections_example :
    InSections
      (log_task_rounds tty echo elog 64 waiting idle).events
      (shell_task_rounds tty echo keys idle).events
      trace
log_task_rounds-InSections_example =
    log_task_rounds-InSections echo elog 64 tty tty waiting keys idle idle trace refl refl run

console_output-Passed_example :
    (true ≡ false)
    ⊎ Passed tty (65 ∷ 66 ∷ []) idle.events (console_output tty (65 ∷ 66 ∷ []) 2 idle).events
console_output-Passed_example = console_output-Passed tty tty-IsWrite (65 ∷ 66 ∷ []) idle

output_lines-drains_example :
    (received (output_lines tty echo elog 64 3 (65 ∷ 10 ∷ []) idle).1.events ≡ [] ++ 65 ∷ 10 ∷ [])
    × ((output_lines tty echo elog 64 3 (65 ∷ 10 ∷ []) idle).0 ≡ [])
output_lines-drains_example =
    output_lines-drains tty tty-IsWrite tty-Writes refl echo elog 64 elog_buffer (65 ∷ 10 ∷ []) idle
      (omega arith) refl

start_run : (console_shell_init tty echo true idle).0.shell_ready ≡ true
unfolding console_shell_init write_all
start_run = refl

-- Without the mutex, nothing of the log is started.
log_init_run : (log_init true false true idle).events ≡ []
unfolding log_init console_output_init
log_init_run = refl
