-- ===== src/Ble/Pipe/Invariant.antt =====
-- pipe/transport/ble/agcore_ble_pipe.c: ownership through the receive path.
use agcore.Prelude.{
  ℕ, ◌+◌, ◌-◌, ◌^◌, u32, ◌<◌, ◌≡◌, refl, ap, sym, subst, ◌∙◌, inl, inr, List, Option, some, Bool,
  not, ◌==◌, ltb, arith, Bool-cases, Option-cases,
}
use agcore.Platform.{EspErr, is_ok, is_ok-ne}
use agcore.Platform.Heap.{Block, Heap, Malloc, IsSized, count_block, free, free-Balanced}
use agcore.Platform.Queue.{QueueOps}
use agcore.Data.Types.{FragmentState, ProtocolState, protocol_state_get}
use agcore.Data.Types.Table.{get-put_self}
use agcore.Data.Fragment.{FragmentResult, error, more, complete, no_memory, no_fragment, clear}
use agcore.Data.Fragment.Step.{IsShaped, IsGood, IsGood-faults, Owns, fragment_receive-IsGood}
use agcore.Data.Route.Registration.{node_blocks}
use agcore.Data.Queue.{RawData, DataState, data_push}
use agcore.Data.Queue.Receive.{Owned, Moves, queue_blocks, data_push-Moves}
use agcore.Ble.{System, link_ble}
use agcore.Ble.Pipe.{
  Timer, put_fragment, reset_fragment, timeout_running, fragment_timeout_cb, pipe_reset, after_push,
  rx_result, rx_data_handle,
}

module _ {Q W : Type 0} (ops : QueueOps RawData Q) (max_len : ℕ) (others : ℕ → ℕ) where
  -- The link is there; the live blocks are the one of its reassembly, those of the queue and of the
  -- handlers, and the others'; the reassembly has the shape of a message in the works, or is zeroed.
  pub record IsSafe (faults : ℕ) (s : DataState Q W) : Type 0 where
    pub state : ProtocolState
    pub at : protocol_state_get s.links link_ble ≡ some state
    pub owned : Owned ops (λ a. others a + count_block a state.fragment.buf) s
    pub shaped : IsShaped max_len state.fragment
    pub no_fault : s.heap.faults ≡ faults

  -- What the layer owns apart from the reassembly.
  abbrev rest : DataState Q W → ℕ → ℕ
  rest s a = others a + (node_blocks s.nodes a + queue_blocks ops s.queue a)

  put_fragment-IsSafe :
      (s : DataState Q W) (state : ProtocolState) (h : Heap) (f : FragmentState) (faults : ℕ)
      → protocol_state_get s.links link_ble ≡ some state
      → Owns (rest s) h f
      → IsShaped max_len f
      → h.faults ≡ faults
      → IsSafe faults (put_fragment s state (h, f))
  put_fragment-IsSafe s state h f faults at owns shaped e = record {
    state = record state { fragment = f };
    at = get-put_self s.links link_ble state (record state { fragment = f }) at;
    owned = λ a. omega (arith, owns a);
    shaped = shaped;
    no_fault = e;
  }

  -- The reassembly is dropped, whose block is live.
  clear-IsSafe :
      (s : DataState Q W) (state : ProtocolState) (h : Heap) (f : FragmentState) (faults : ℕ)
      → protocol_state_get s.links link_ble ≡ some state
      → Owns (rest s) h f
      → h.faults ≡ faults
      → IsSafe faults (put_fragment s state (clear h f))
  unfolding clear
  clear-IsSafe s state h f faults at owns e =
      let freed = free-Balanced f.buf h (rest s) owns in
      put_fragment-IsSafe s state (free f.buf h) no_fragment faults at
        (λ a. omega (arith, freed.0 a)) (refl, refl) (freed.1 ∙ e)

  pub reset_fragment-IsSafe :
      (s : DataState Q W) (faults : ℕ) → IsSafe faults s → IsSafe faults (reset_fragment s)
  reset_fragment-IsSafe s faults v =
      rw (v.at, reset_fragment)
        (clear-IsSafe s v.state s.heap v.state.fragment faults v.at (λ a. omega (arith, v.owned a))
          v.no_fault)

  timeout_running-IsSafe :
      (t : Timer) (s : System Q W) (faults : ℕ)
      → IsSafe faults s.layer
      → IsSafe faults (timeout_running t s).layer
  unfolding timeout_running
  timeout_running-IsSafe t s faults v =
      let cleared = reset_fragment-IsSafe s.layer faults v in
      elim (Bool-cases early) [
        | inl e ↦ elim (Bool-cases t.is_set) [ inl f ↦ rw (e, f) v | inr f ↦ rw (e, f) cleared ]
        | inr e ↦ rw e cleared
      ]
    where
      early : Bool
      early = ltb (u32 (t.now + 2 ^ 32 - s.ble.rx_last_tick)) t.timeout

  -- The block is the queue's where the push succeeded, and is freed where it did not.
  after_push-IsSafe :
      (s : DataState Q W) (state : ProtocolState) (f : FragmentState) (faults : ℕ)
      (o : DataState Q W × EspErr)
      → protocol_state_get s.links link_ble ≡ some state
      → Owns (rest s) s.heap f
      → s.heap.faults ≡ faults
      → Moves ops others s o
      → IsSafe faults (after_push state f o).0
  unfolding clear free
  after_push-IsSafe s state f faults (s', ret) at owns e (inl (ok, owned, heap, links)) =
      rw (ap is_ok ok) (
        put_fragment-IsSafe s' state s'.heap no_fragment faults
          (ap (λ l. protocol_state_get l link_ble) links ∙ at) (λ a. omega (arith, owned a))
          (refl, refl) (ap (λ h. h.faults) heap ∙ e))
  after_push-IsSafe s state f faults (s', ret) at owns e (inr (bad, same)) = rw (is_ok-ne ret bad) (
      subst (λ (x : DataState Q W). IsSafe faults (put_fragment x state (clear x.heap f)))
        (sym same) (clear-IsSafe s state s.heap f faults at owns e))

  push_message-IsSafe :
      (s : DataState Q W) (state : ProtocolState) (f : FragmentState) (b : Block) (faults : ℕ)
      → protocol_state_get s.links link_ble ≡ some state
      → f.buf ≡ some b
      → Owns (rest s) s.heap f
      → s.heap.faults ≡ faults
      → IsSafe faults (after_push state f (data_push ops s link_ble f.buf f.total_len)).0
  push_message-IsSafe s state f b faults at e owns k =
      after_push-IsSafe s state f faults (data_push ops s link_ble f.buf f.total_len) at owns k (
        subst (λ (o : Option Block). Moves ops others s (data_push ops s link_ble o f.total_len))
          (sym e)
          (data_push-Moves ops s link_ble b f.total_len others
            (λ a. omega (arith, owns a, ap (λ (o : Option Block). count_block a o) e))))

  rx_result-IsSafe :
      (t : Timer) (s : System Q W) (state : ProtocolState) (faults : ℕ)
      (o : Heap × FragmentState × FragmentResult)
      → protocol_state_get s.layer.links link_ble ≡ some state
      → IsGood max_len faults (rest s.layer) o
      → IsSafe faults (rx_result ops t s state o).0.layer
  unfolding rx_result
  rx_result-IsSafe t s state faults (h, f, more) at g = elim (Bool-cases t.is_set) [
    | inl e ↦ rw e (put_fragment-IsSafe s.layer state h f faults at g.owns g.shaped g.no_fault)
    | inr e ↦ rw e (clear-IsSafe s.layer state h f faults at g.owns g.no_fault)
  ]
  rx_result-IsSafe t s state faults (h, f, complete) at g = elim (Option-cases f.buf) [
    | inl e ↦ absurd (g.says.1 e)
    | inr (b, e) ↦
        push_message-IsSafe (record s.layer { heap = h }) state f b faults at e g.owns g.no_fault
  ]
  rx_result-IsSafe t s state faults (h, f, no_memory) at g =
      put_fragment-IsSafe s.layer state h f faults at g.owns g.shaped g.no_fault
  rx_result-IsSafe t s state faults (h, f, error) at g =
      put_fragment-IsSafe s.layer state h f faults at g.owns g.shaped g.no_fault

  -- Whatever a peer writes, from whatever connection, with whatever answers of the allocator, the queue
  -- and the timer: afterwards the blocks are owned as before, each once, and none was freed twice or lost;
  -- the reassembly is zeroed or a message in the works.
  pub rx_data_handle-IsSafe :
      (m : Malloc) (t : Timer) (s : System Q W) (conn_handle : ℕ) (p : Option (List ℕ))
      (len faults : ℕ)
      → IsSized m
      → max_len < 65536
      → IsSafe faults s.layer
      → IsSafe faults (rx_data_handle ops m max_len t s conn_handle p len).0.layer
  unfolding rx_data_handle
  rx_data_handle-IsSafe m t s conn_handle p len faults sized w v =
      elim (Bool-cases (not (conn_handle == s.ble.conn_handle))) [
        | inl e ↦ rw e v
        | inr e ↦
            rw (e, v.at)
              (rx_result-IsSafe t s v.state faults _ v.at (
                IsGood-faults v.no_fault (
                  fragment_receive-IsGood max_len (rest s.layer) s.layer.heap v.state.fragment m p
                    len sized (λ a. omega (arith, v.owned a)) v.shaped w)))
      ]

  pub fragment_timeout_cb-IsSafe :
      (t : Timer) (s : System Q W) (faults : ℕ)
      → IsSafe faults s.layer
      → IsSafe faults (fragment_timeout_cb t s).layer
  unfolding fragment_timeout_cb
  fragment_timeout_cb-IsSafe t s faults v = elim (Option-cases v.state.fragment.buf) [
    | inl e ↦ rw (v.at, e, fragment_timeout_cb) v
    | inr (b, e) ↦ rw (v.at, e, fragment_timeout_cb) (timeout_running-IsSafe t s faults v)
  ]

  pub pipe_reset-IsSafe :
      (s : System Q W) (faults : ℕ) → IsSafe faults s.layer → IsSafe faults (pipe_reset s).layer
  unfolding pipe_reset
  pipe_reset-IsSafe s faults v = reset_fragment-IsSafe s.layer faults v
