-- ===== src/Platform/Queue.antt =====
-- FreeRTOS queues, as pipe/data/agcore_data.c uses them. A queue is an argument of the definitions:
-- the calls on it, and what FreeRTOS documents of them.
use agcore.Prelude.{◌≡◌, List, [], ◌∷◌, ◌++◌, Option, none, some}

pub record QueueOps (A Q : Type 0) : Type 0 where
  -- The items in a queue, the oldest first.
  pub contents : Q → List A
  -- `xQueueSend` without a wait, and `xQueueReceive`, which answers nothing where it would wait.
  pub send : Q → A → Option Q
  pub receive : Q → Option (A × Q)
  pub send-contents :
      (q : Q) (a : A) (q' : Q) → send q a ≡ some q' → contents q' ≡ contents q ++ (a ∷ [])
  pub receive-contents :
      (q : Q) (a : A) (q' : Q) → receive q ≡ some (a, q') → contents q ≡ a ∷ contents q'
  pub receive-none : (q : Q) → receive q ≡ none → contents q ≡ []
