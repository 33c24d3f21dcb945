-- ===== src/Ble/Host.antt =====
-- pipe/transport/ble: what runs in the context of the NimBLE host, as steps of the system.
use agcore.Prelude.{
  Bool, ℕ, ◌<◌, ◌≡◌, refl, ap, ◌∙◌, inl, inr, List, some, false, not, ◌&&◌, ◌==◌, Bool-cases, arith,
  u32, ◌+◌,
}
use agcore.Platform.Heap.{Malloc, IsSized}
use agcore.Platform.Queue.{QueueOps}
use agcore.Data.Types.{ProtocolState, Links, protocol_state_get, protocol_state_put}
use agcore.Data.Types.Table.{get-put_self}
use agcore.Data.Protocol.{data_link_reset}
use agcore.Data.Fragment.{no_fragment, clear}
use agcore.Data.Queue.{RawData, DataState}
use agcore.Ble.{System, link_ble, conn_handle_none, default_mtu}
use agcore.Ble.Pipe.{Timer, pipe_reset, reset_fragment, fragment_timeout_cb}
use agcore.Ble.Gatt.{gatt_write_cb}
use agcore.Ble.Gatt.Ownership.{gatt_write_cb-IsSafe}
use agcore.Ble.Stack.{Stack, on_stack_reset_cb}
use agcore.Ble.Pipe.Invariant.{IsSafe, fragment_timeout_cb-IsSafe, pipe_reset-IsSafe}
use agcore.Ble.Gap.{
  GapEvent, connect, disconnect, mtu, other_event, gap_mtu_exchange_initiate, gap_connect_handle,
  gap_disconnect_handle, gap_mtu_handle, gap_event_cb,
}

link_reset :
    (links : Links) (state : ProtocolState)
    → protocol_state_get links link_ble ≡ some state
    → protocol_state_get (data_link_reset links link_ble) link_ble
      ≡ some (record state { rx_sn = 0; tx_sn = 0 })
unfolding data_link_reset
link_reset links state at =
    let zeroed : ProtocolState = record state { rx_sn = 0; tx_sn = 0 } in
    let put : data_link_reset links link_ble ≡ protocol_state_put links link_ble zeroed =
      rw (at, data_link_reset) refl in
    ap (λ (l : Links). protocol_state_get l link_ble) put
    ∙ get-put_self links link_ble state zeroed at

module _ {Q W : Type 0} (ops : QueueOps RawData Q) (max_len : ℕ) where
  -- A write of a peer, a reset of the stack, the end of the reassembly timer and of the MTU timer, and an event of GAP, with
  -- whatever NimBLE and the allocator answer.
  pub data Step : System Q W → System Q W → Type 0 where
    written :
        (m m' : Malloc) (t : Timer) (s : System Q W) (conn_handle : ℕ) (om : List ℕ) (copied : Bool)
        → IsSized m'
        → Step s (gatt_write_cb ops m m' max_len t s conn_handle om copied).0
    rx_expired : (t : Timer) (s : System Q W) → Step s (fragment_timeout_cb t s)
    mtu_expired : (s : System Q W) → Step s (gap_mtu_exchange_initiate s)
    gap : (ticks : ℕ) (s : System Q W) (e : GapEvent) → Step s (gap_event_cb ticks s e)
    reset : (k : Stack Q W) → Step k.system (on_stack_reset_cb k).system

  pub data Reaches : System Q W → System Q W → Type 0 where
    here : (s : System Q W) → Reaches s s
    onward : (s t u : System Q W) → Step s t → Reaches t u → Reaches s u

  module _ (others : ℕ → ℕ) (faults : ℕ) where
    abbrev Safe : System Q W → Type 0
    Safe s = IsSafe ops max_len others faults s.layer

    data_link_reset-IsSafe :
        (s : DataState Q W)
        → IsSafe ops max_len others faults s
        → IsSafe ops max_len others faults (record s { links = data_link_reset s.links link_ble })
    data_link_reset-IsSafe s v = record {
      state = record v.state { rx_sn = 0; tx_sn = 0 };
      at = link_reset s.links v.state v.at;
      owned = v.owned;
      shaped = v.shaped;
      no_fault = v.no_fault;
    }

    gap_event_cb-IsSafe :
        (ticks : ℕ) (s : System Q W) (e : GapEvent) → Safe s → Safe (gap_event_cb ticks s e)
    unfolding gap_event_cb gap_connect_handle gap_disconnect_handle gap_mtu_handle
    gap_event_cb-IsSafe ticks s (connect status handle) v = elim (Bool-cases (status == 0)) [
      | inl e ↦ elim (Bool-cases (not (s.ble.conn_handle == conn_handle_none))) [
        | inl f ↦ rw (e, f) v
        | inr f ↦
            rw (e, f)
              (data_link_reset-IsSafe (pipe_reset s).layer
                (pipe_reset-IsSafe ops max_len others s faults v))
      ]
      | inr e ↦ rw e v
    ]
    gap_event_cb-IsSafe ticks s (disconnect handle) v =
        elim (Bool-cases (not (handle == s.ble.conn_handle))) [
          | inl e ↦ rw e v
          | inr e ↦ rw e (
              data_link_reset-IsSafe (pipe_reset s).layer
                (pipe_reset-IsSafe ops max_len others s faults v))
        ]
    gap_event_cb-IsSafe ticks s (mtu handle value) v =
        elim (Bool-cases (not (handle == s.ble.conn_handle))) [ inl e ↦ rw e v | inr e ↦ rw e v ]
    gap_event_cb-IsSafe ticks s other_event v = v

    mtu_exchange-IsSafe : (s : System Q W) → Safe s → Safe (gap_mtu_exchange_initiate s)
    unfolding gap_mtu_exchange_initiate
    mtu_exchange-IsSafe s v =
        elim (Bool-cases
          ((s.ble.gap_mtu == default_mtu) && not (s.ble.conn_handle == conn_handle_none))) [
            | inl e ↦ rw e v
            | inr e ↦ rw e v
          ]

    reset-IsSafe : (k : Stack Q W) → Safe k.system → Safe (on_stack_reset_cb k).system
    unfolding on_stack_reset_cb
    reset-IsSafe k v = pipe_reset-IsSafe ops max_len others k.system faults v

    Step-IsSafe : (s t : System Q W) → max_len < 65536 → Step s t → Safe s → Safe t
    Step-IsSafe s t w (written m m' timer _ conn om copied sized) v =
        gatt_write_cb-IsSafe ops max_len others faults m m' timer s conn om copied sized w v
    Step-IsSafe s t w (reset k) v = reset-IsSafe k v
    Step-IsSafe s t w (rx_expired timer _) v =
        fragment_timeout_cb-IsSafe ops max_len others timer s faults v
    Step-IsSafe s t w (mtu_expired _) v = mtu_exchange-IsSafe s v
    Step-IsSafe s t w (gap ticks _ e) v = gap_event_cb-IsSafe ticks s e v

    -- Whatever a peer does, in whatever order its writes, its connections, the timers and resets of the stack come, and
    -- whatever the allocator, the queue and NimBLE answer: each live block has one owner, among them the
    -- reassembly and the queue, none is lost or freed twice, and the reassembly is zeroed or a message in the
    -- works.
    pub Reaches-IsSafe :
        (s t : System Q W)
        → max_len < 65536
        → Reaches s t
        → IsSafe ops max_len others faults s.layer
        → IsSafe ops max_len others faults t.layer
    Reaches-IsSafe s t w (here _) v = v
    Reaches-IsSafe s u w (onward _ t _ step r) v = Reaches-IsSafe t u w r (Step-IsSafe s t w step v)

-- No connection, or a new one: nothing is left of the former.
pub record IsFresh {Q W : Type 0} (conn session : ℕ) (s : System Q W) : Type 0 where
  pub handle : s.ble.conn_handle ≡ conn
  pub mtu_back : s.ble.gap_mtu ≡ default_mtu
  pub new_session : s.ble.session ≡ session
  pub link :
      protocol_state_get s.layer.links link_ble
      ≡ some (record { rx_sn = 0; tx_sn = 0; fragment = no_fragment })

module _ {Q W : Type 0} (ticks : ℕ) (s : System Q W) (state : ProtocolState) where
  cleared :
      protocol_state_get s.layer.links link_ble ≡ some state
      → protocol_state_get (data_link_reset (pipe_reset s).layer.links link_ble) link_ble
        ≡ some (record { rx_sn = 0; tx_sn = 0; fragment = no_fragment })
  unfolding pipe_reset clear
  cleared at =
      let zeroed : ProtocolState = record state { fragment = no_fragment } in
      let e : (pipe_reset s).layer.links ≡ protocol_state_put s.layer.links link_ble zeroed =
        rw (at, reset_fragment, pipe_reset) refl in
      link_reset (pipe_reset s).layer.links zeroed (
        ap (λ (l : Links). protocol_state_get l link_ble) e
        ∙ get-put_self s.layer.links link_ble state zeroed at)

  next_session : (pipe_reset s).ble.session ≡ u32 (s.ble.session + 1)
  unfolding pipe_reset
  next_session = elim (Bool-cases s.ble.initialized) [
    | inl e ↦ rw (e, pipe_reset) refl
    | inr e ↦ rw (e, pipe_reset) refl
  ]

  -- The end of the connection leaves a zeroed reassembly, both numbers of the link at 0, the smallest MTU,
  -- no connection, and the next session number.
  pub gap_disconnect-IsFresh :
      protocol_state_get s.layer.links link_ble ≡ some state
      → IsFresh conn_handle_none
          (u32 (s.ble.session + 1))
          (gap_event_cb ticks s (disconnect s.ble.conn_handle))
  unfolding gap_event_cb gap_disconnect_handle
  gap_disconnect-IsFresh at =
      let same : not (s.ble.conn_handle == s.ble.conn_handle) ≡ false = ground arith in
      rw same
        (record { handle = refl; mtu_back = refl; new_session = next_session; link = cleared at })

  -- The start of a connection where there is none leaves a zeroed reassembly, both numbers of the link at
  -- 0, the smallest MTU, the connection of the event, and the next session.
  pub gap_connect-IsFresh :
      (handle : ℕ)
      → protocol_state_get s.layer.links link_ble ≡ some state
      → s.ble.conn_handle ≡ conn_handle_none
      → IsFresh handle (u32 (s.ble.session + 1)) (gap_event_cb ticks s (connect 0 handle))
  unfolding gap_event_cb gap_connect_handle
  gap_connect-IsFresh handle at alone =
      let free : not (s.ble.conn_handle == conn_handle_none) ≡ false = ground arith in
      rw free
        (record { handle = refl; mtu_back = refl; new_session = next_session; link = cleared at })
