-- ===== src/Console/Lines.antt =====
-- common/console: the tasks of the log and of the shell, interleaved in any way that the mutex allows.
use agcore.Prelude.{
  ℕ, List, [], ◌∷◌, ◌++◌, Option, none, some, Bool, true, false, ◌≡◌, refl, ap, sym, ◌∙◌,
  append_assoc, take,
}
use agcore.Console.{
  Event, take_lock, give_lock, fsync, write, glue, Glue, Task, log_task, shell_task, Terminal,
  ShellOps, LogOps, Console, amount, shell_task_rounds, log_task_rounds,
}
use agcore.Console.Locking.{
  Locks, lock_after, start-Locks, shell_task_rounds-Locks, log_task_rounds-Locks,
}

-- The bytes that reach standard output.
abbrev pub received : List Event → List ℕ
received [] = []
received (take_lock ∷ es) = received es
received (give_lock ∷ es) = received es
received (fsync ∷ es) = received es
received (write bytes answer ∷ es) = take (amount answer) bytes ++ received es
received (glue g ∷ es) = received es

-- The bytes written up to the next release of the lock, and those of each section from there on.
abbrev pub section_bytes : List Event → List ℕ
section_bytes [] = []
section_bytes (take_lock ∷ es) = []
section_bytes (give_lock ∷ es) = []
section_bytes (fsync ∷ es) = section_bytes es
section_bytes (write bytes answer ∷ es) = take (amount answer) bytes ++ section_bytes es
section_bytes (glue g ∷ es) = section_bytes es

abbrev pub sections : List Event → List (List ℕ)
sections [] = []
sections (take_lock ∷ es) = section_bytes es ∷ sections es
sections (give_lock ∷ es) = sections es
sections (fsync ∷ es) = sections es
sections (write bytes answer ∷ es) = sections es
sections (glue g ∷ es) = sections es

-- The order of `xs` and of `ys` is kept in `zs`.
pub data Merge : List (List ℕ) → List (List ℕ) → List (List ℕ) → Type 0 where
  nil : Merge [] [] []
  left : {x : List ℕ} {xs ys zs : List (List ℕ)} → Merge xs ys zs → Merge (x ∷ xs) ys (x ∷ zs)
  right : {y : List ℕ} {xs ys zs : List (List ℕ)} → Merge xs ys zs → Merge xs (y ∷ ys) (y ∷ zs)

abbrev pub concat : List (List ℕ) → List ℕ
concat [] = []
concat (x ∷ xs) = x ++ concat xs

-- A call that the scheduler does not hold back.
pub data IsFree : Event → Type 0 where
  free_write : {bytes : List ℕ} {answer : Option ℕ} → IsFree (write bytes answer)
  free_fsync : IsFree fsync
  free_glue : {g : Glue} → IsFree (glue g)

-- The calls that are left of the log's task and of the shell's, with the owner of the mutex, run to
-- their end with the trace: xSemaphoreTake returns to one task at a time, and only the owner gives.
pub data Runs : Option Task → List Event → List Event → List Event → Type 0 where
  finish : Runs none [] [] []
  log_takes :
      {p q t : List Event}
      → Runs (some log_task) p q t
      → Runs none (take_lock ∷ p) q (take_lock ∷ t)
  shell_takes :
      {p q t : List Event}
      → Runs (some shell_task) p q t
      → Runs none p (take_lock ∷ q) (take_lock ∷ t)
  log_gives :
      {p q t : List Event}
      → Runs none p q t
      → Runs (some log_task) (give_lock ∷ p) q (give_lock ∷ t)
  shell_gives :
      {p q t : List Event}
      → Runs none p q t
      → Runs (some shell_task) p (give_lock ∷ q) (give_lock ∷ t)
  log_acts :
      {owner : Option Task} {e : Event} {p q t : List Event}
      → IsFree e
      → Runs owner p q t
      → Runs owner (e ∷ p) q (e ∷ t)
  shell_acts :
      {owner : Option Task} {e : Event} {p q t : List Event}
      → IsFree e
      → Runs owner p q t
      → Runs owner p (e ∷ q) (e ∷ t)

abbrev log_owns : Option Task → Bool
log_owns none = false
log_owns (some log_task) = true
log_owns (some shell_task) = false

abbrev shell_owns : Option Task → Bool
shell_owns none = false
shell_owns (some log_task) = false
shell_owns (some shell_task) = true

-- What the owner has left to write in its section.
abbrev open_bytes : Option Task → List Event → List Event → List ℕ
open_bytes none p q = []
open_bytes (some log_task) p q = section_bytes p
open_bytes (some shell_task) p q = section_bytes q

abbrev Whole : List (List ℕ) → List (List ℕ) → List ℕ → List ℕ → Type 0
Whole xs ys opened out = (ms : List (List ℕ)) × (Merge xs ys ms × (out ≡ opened ++ concat ms))

-- A write of the owner stands before what it has left.
write-Whole :
    (bytes : List ℕ) (answer : Option ℕ) (opened : List ℕ) {xs ys : List (List ℕ)} {out : List ℕ}
    → Whole xs ys opened out
    → Whole xs ys (take (amount answer) bytes ++ opened) (take (amount answer) bytes ++ out)
write-Whole bytes answer opened (ms, (m, e)) = (
  ms,
  (
    m,
    ap (λ (rest : List ℕ). take (amount answer) bytes ++ rest) e
        ∙ sym (append_assoc (take (amount answer) bytes) opened (concat ms)),
  ),
)

Runs-Whole :
    {owner : Option Task} {p q t : List Event}
    → Runs owner p q t
    → lock_after (log_owns owner) p ≡ some false
    → lock_after (shell_owns owner) q ≡ some false
    → Whole (sections p) (sections q) (open_bytes owner p q) (received t)
unfolding lock_after
Runs-Whole finish f g = ([], (nil, refl))
Runs-Whole (log_takes {p = p} r) f g =
    let (ms, (m, e)) = Runs-Whole r f g in (section_bytes p ∷ ms, (left m, e))
Runs-Whole (shell_takes {q = q} r) f g =
    let (ms, (m, e)) = Runs-Whole r f g in (section_bytes q ∷ ms, (right m, e))
Runs-Whole (log_gives r) f g = Runs-Whole r f g
Runs-Whole (shell_gives r) f g = Runs-Whole r f g
Runs-Whole {owner = none} (log_acts free_write r) f g = absurd cc
Runs-Whole {owner = none} (log_acts free_fsync r) f g = absurd cc
Runs-Whole {owner = none} (log_acts free_glue r) f g = Runs-Whole r f g
Runs-Whole {owner = (some log_task)} (log_acts (free_write {bytes = bytes} {answer = answer}) r) f
      g =
    write-Whole bytes answer _ (Runs-Whole r f g)
Runs-Whole {owner = (some log_task)} (log_acts free_fsync r) f g = Runs-Whole r f g
Runs-Whole {owner = (some log_task)} (log_acts free_glue r) f g = Runs-Whole r f g
Runs-Whole {owner = (some shell_task)} (log_acts free_write r) f g = absurd cc
Runs-Whole {owner = (some shell_task)} (log_acts free_fsync r) f g = absurd cc
Runs-Whole {owner = (some shell_task)} (log_acts free_glue r) f g = Runs-Whole r f g
Runs-Whole {owner = none} (shell_acts free_write r) f g = absurd cc
Runs-Whole {owner = none} (shell_acts free_fsync r) f g = absurd cc
Runs-Whole {owner = none} (shell_acts free_glue r) f g = Runs-Whole r f g
Runs-Whole {owner = (some log_task)} (shell_acts free_write r) f g = absurd cc
Runs-Whole {owner = (some log_task)} (shell_acts free_fsync r) f g = absurd cc
Runs-Whole {owner = (some log_task)} (shell_acts free_glue r) f g = Runs-Whole r f g
Runs-Whole {owner = (some shell_task)} (shell_acts (free_write {bytes = bytes} {answer = answer}) r)
      f g =
    write-Whole bytes answer _ (Runs-Whole r f g)
Runs-Whole {owner = (some shell_task)} (shell_acts free_fsync r) f g = Runs-Whole r f g
Runs-Whole {owner = (some shell_task)} (shell_acts free_glue r) f g = Runs-Whole r f g

-- What reaches standard output is whole sections, those of each task in its order.
abbrev pub InSections : List Event → List Event → List Event → Type 0
InSections p q t =
    (ms : List (List ℕ)) × (Merge (sections p) (sections q) ms × (received t ≡ concat ms))

module _ {S L : Type 0} (ops : ShellOps S) (elog : LogOps L) (line_buf_size : ℕ) where
  -- Let the task of the log and the task of the shell start before any call, and run interleaved in any
  -- way that the mutex allows until both are through, whatever `write`, EasyLogger and letter-shell
  -- answer to each. Then what reaches standard output is whole sections under the lock, none broken by
  -- the other task, and those of each task in its order.
  pub log_task_rounds-InSections :
      (log_terminal shell_terminal : Terminal) (ls : List L) (reads : List (Option ℕ))
      (c d : Console S) (t : List Event)
      → c.events ≡ []
      → d.events ≡ []
      → Runs none
          (log_task_rounds log_terminal ops elog line_buf_size ls c).events
          (shell_task_rounds shell_terminal ops reads d).events
          t
      → InSections
          (log_task_rounds log_terminal ops elog line_buf_size ls c).events
          (shell_task_rounds shell_terminal ops reads d).events
          t
  unfolding Locks
  log_task_rounds-InSections log_terminal shell_terminal ls reads c d t e f r =
      Runs-Whole r
        (log_task_rounds-Locks log_terminal ops elog line_buf_size ls c (start-Locks c e))
        (shell_task_rounds-Locks shell_terminal ops reads d (start-Locks d f))
