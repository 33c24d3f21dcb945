-- ===== src/Tests/Queue.antt =====
-- pipe/data at concrete inputs: the queue, routing and sending.
use agcore.Prelude.{
  ℕ, suc, ◌+◌, ◌≡◌, ◌≢◌, ◌⊎◌, inl, inr, refl, sym, ap, List, [], ◌∷◌, ◌++◌, Option, none, some,
  true, length, append-nil, take, replicate, arith, if◌then◌else◌, ◌==◌, ltb, Bool-cases,
}
use agcore.Platform.{EspErr, esp_ok}
use agcore.Platform.Heap.{Malloc, Balanced}
use agcore.Platform.Queue.{QueueOps}
use agcore.Data.Types.{Data, LinkContext, protocol_state_get}
use agcore.Data.Protocol.Frame.{frame, payload_of}
use agcore.Data.Protocol.Decode.{remember}
use agcore.Data.Route.{Node, is_registered, handler_register, route_handler}
use agcore.Data.Route.Dispatch.{each, route_handler-each}
use agcore.Data.Route.Registration.{IsRegistration, handler_register-IsRegistration}
use agcore.Data.Queue.{RawData, DataState, data_push, data_task_step, data_send}
use agcore.Data.Queue.Send.{data_send-Balanced, data_send_lem, Accepted}
use agcore.Data.Queue.Receive.{Owned, Moves, data_push-Moves, data_task_step-Owned}
use agcore.Data.Queue.Delivery.{freed, data_task_step-delivers}
use agcore.Tests.Protocol.{sending_state, message, message-IsData}

-- A queue of eight places as the list of its items.
abbrev pub list_send : List RawData → RawData → Option (List RawData)
list_send q a = if ltb (length q) 8 then some (q ++ (a ∷ [])) else none

abbrev pub list_receive : List RawData → Option (RawData × List RawData)
list_receive [] = none
list_receive (x ∷ q) = some (x, q)

pub list_send_lem :
    (q : List RawData) (a : RawData) (q' : List RawData)
    → list_send q a ≡ some q'
    → q' ≡ q ++ (a ∷ [])
list_send_lem q a q' e = elim (Bool-cases (ltb (length q) 8)) [
  | inl t ↦ ground (arith, e, t)
  | inr t ↦ absurd (ground (arith, e, t))
]

pub list_receive_lem :
    (q : List RawData) (a : RawData) (q' : List RawData)
    → list_receive q ≡ some (a, q')
    → q ≡ a ∷ q'
list_receive_lem [] a q' e = absurd (ground (arith, e))
list_receive_lem (x ∷ q) a q' e =
    ap (λ (o : Option (RawData × List RawData)). elim o [ none ↦ [] | some (b, r) ↦ b ∷ r ]) e

pub list_receive-none : (q : List RawData) → list_receive q ≡ none → q ≡ []
list_receive-none [] e = refl
list_receive-none (x ∷ q) e = absurd (ground (arith, e))

abbrev pub list_ops : QueueOps RawData (List RawData)
list_ops = record {
  contents = λ q. q;
  send = list_send;
  receive = list_receive;
  send-contents = list_send_lem;
  receive-contents = list_receive_lem;
  receive-none = list_receive-none;
}

-- Outside of the layer stand a clock and the bytes that were sent.
abbrev pub Outside : Type 0
Outside = ℕ × List (List ℕ)

abbrev pub wire_transport : ℕ → List ℕ → ℕ → Outside → Outside × EspErr
wire_transport cb bytes n (t, out) = ((t, out ++ (take n bytes ∷ [])), esp_ok)

abbrev pub gives : Malloc
gives n = some (record { addr = 5; bytes = replicate n 0 })

abbrev pub ble_context : LinkContext
ble_context = record { send_lock = true; send_cb = some 77; protocol = sending_state }

abbrev pub handler : Node
handler = record { cb = 31; block = record { addr = 2; bytes = [] } }

abbrev pub incoming : RawData
incoming = record {
  link = 1;
  len = 12;
  buf = record { addr = 9; bytes = frame 8 (0xAC ∷ 0x01 ∷ 0x55 ∷ []) };
}

abbrev pub state : DataState (List RawData) Outside
state = record {
  links = ble_context ∷ ble_context ∷ [];
  queue = some (incoming ∷ []);
  task = true;
  nodes = handler ∷ [];
  heap = record { live = 2 ∷ 9 ∷ 4 ∷ []; faults = 0 };
  world = (1000, []);
}

-- A callback that answers nothing.
abbrev quiet : ℕ → Data → DataState (List RawData) Outside → DataState (List RawData) Outside
quiet cb d s = s

-- A callback that registers another.
abbrev registers : ℕ → Data → List Node → List Node
registers cb d ns = ns ++ (record { cb = suc cb; block = record { addr = 1; bytes = [] } } ∷ [])

route_handler-each_example :
    route_handler (λ (ns : List Node). ns) registers (some message) (handler ∷ [])
    ≡ each registers (31 ∷ []) message (handler ∷ [])
route_handler-each_example =
    route_handler-each (λ (ns : List Node). ns) registers message (handler ∷ [])
      (λ cb d ns. (record { cb = suc cb; block = record { addr = 1; bytes = [] } } ∷ [], refl)) refl

-- The block at address 4 is another owner's.
abbrev other : ℕ → ℕ
other a = if a == 4 then 1 else 0

handler_register-IsRegistration_example :
    IsRegistration
      (record { live = 2 ∷ 4 ∷ []; faults = 0 })
      other
      (handler ∷ [])
      40
      (handler_register gives (record { live = 2 ∷ 4 ∷ []; faults = 0 }) (handler ∷ []) (some 40))
    × ((is_registered 40 (handler ∷ []) ≡ true) ⊎ (gives 8 ≢ none)
        → is_registered 40
            (handler_register gives
              (record { live = 2 ∷ 4 ∷ []; faults = 0 })
              (handler ∷ [])
              (some 40)).1
          ≡ true)
handler_register-IsRegistration_example =
    handler_register-IsRegistration gives (record { live = 2 ∷ 4 ∷ []; faults = 0 }) other
      (handler ∷ []) 40 (refl, tt) (λ a. ground arith)

abbrev three_live : ℕ → ℕ
three_live a = (if 2 == a then 1 else 0) + ((if 9 == a then 1 else 0) + (if 4 == a then 1 else 0))

data_send-Balanced_example :
    let (s', ret) = data_send gives wire_transport state (some message) in
    Balanced s'.heap three_live × (s'.heap.faults ≡ 0)
data_send-Balanced_example =
    data_send-Balanced gives wire_transport state (some message) three_live (λ a. omega arith)

data_send_lem_example :
    Accepted {Q = List RawData} gives wire_transport state message ble_context 77
      (data_send gives wire_transport state (some message))
data_send_lem_example =
    data_send_lem gives wire_transport state message ble_context 77
      (record { addr = 5; bytes = replicate 12 0 }) refl refl refl refl message-IsData refl refl

-- The block at address 7 is the caller's.
abbrev with_seven : DataState (List RawData) Outside
with_seven = record state { heap = record { live = 7 ∷ 2 ∷ 9 ∷ 4 ∷ []; faults = 0 } }

data_push-Moves_example :
    Moves list_ops other with_seven
      (data_push list_ops with_seven 1 (some (record { addr = 7; bytes = 1 ∷ [] })) 1)
data_push-Moves_example =
    data_push-Moves list_ops with_seven 1 (record { addr = 7; bytes = 1 ∷ [] }) 1 other
      (λ a. ground arith)

data_task_step-Owned_example :
    Owned list_ops other (data_task_step list_ops quiet state)
    × ((data_task_step list_ops quiet state).heap.faults ≡ 0)
data_task_step-Owned_example =
    data_task_step-Owned list_ops quiet other state (λ raw rest e cb d s b. (b, refl))
      (λ a. ground arith)

ble_state : protocol_state_get state.links 1 ≡ some sending_state
unfolding protocol_state_get
ble_state = refl

data_task_step-delivers_example :
    (q' : List RawData) × (got : Data) × (q' ≡ [])
    × (payload_of got ≡ 0xAC ∷ 0x01 ∷ 0x55 ∷ [])
    × (got.sn ≡ 8)
    × (got.link ≡ 1)
    × (data_task_step list_ops quiet state
        ≡ freed list_ops quiet incoming.buf (
            each quiet
              (31 ∷ [])
              got
              (record state { queue = some q'; links = remember state.links 1 sending_state 8 })))
data_task_step-delivers_example =
    data_task_step-delivers list_ops quiet state (incoming ∷ []) incoming [] sending_state 8
      (0xAC ∷ 0x01 ∷ 0x55 ∷ []) (λ cb d s. ([], sym (append-nil s.nodes))) refl refl ble_state
      (omega arith) (inr (omega arith)) (omega arith) refl refl
