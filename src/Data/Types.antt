-- ===== src/Data/Types.antt =====
-- pipe/data/inc/agcore_data.h, pipe/data/inc/protocol/agcore_data_protocol.h and the link table of
-- pipe/data/agcore_data.c. A link is its number in the enumeration, LINK_NONE is 0, and LINK_COUNT is
-- the length of the table.
pub mod Table
use agcore.Prelude.{
  ℕ, List, Option, none, some, Bool, ◌||◌, ◌==◌, leb, if◌then◌else◌, length, get_elem?, set,
}
use agcore.Platform.Heap.{Block}

-- `agcore_data_t`
pub record Data : Type 0 where
  pub link : ℕ
  pub sn : ℕ
  pub payload_len : ℕ
  pub payload : Option (List ℕ)

-- `agcore_fragment_state_t`
pub record FragmentState : Type 0 where
  pub buf : Option Block
  pub total_len : ℕ
  pub received_len : ℕ

-- `agcore_data_protocol_state_t`
pub record ProtocolState : Type 0 where
  pub rx_sn : ℕ
  pub tx_sn : ℕ
  pub fragment : FragmentState

-- `agcore_data_link_context_t`: whether the lock was created, and the send callback, a function of
-- the links by its address.
pub record LinkContext : Type 0 where
  pub send_lock : Bool
  pub send_cb : Option ℕ
  pub protocol : ProtocolState

abbrev pub Links : Type 0
Links = List LinkContext

-- AGCORE_RAWDATA_OVERHEAD and AGCORE_RAWDATA_PAYLOAD_MAX_LEN
abbrev pub rawdata_overhead : ℕ
rawdata_overhead = 9

abbrev pub rawdata_payload_max_len : ℕ
rawdata_payload_max_len = 65526

-- `link <= LINK_NONE || link >= LINK_COUNT`
abbrev pub is_bad_link : Links → ℕ → Bool
is_bad_link links link = (link == 0) || leb (length links) link

unfoldable pub protocol_state_get : Links → ℕ → Option ProtocolState
protocol_state_get links link =
    if is_bad_link links link
    then none
    else elim (get_elem? links link) [ none ↦ none | some c ↦ some c.protocol ]

-- A write through the pointer that `protocol_state_get` returned.
unfoldable pub protocol_state_put : Links → ℕ → ProtocolState → Links
protocol_state_put links link p = elim (get_elem? links link) [
  | none ↦ links
  | some c ↦ set links link (record c { protocol = p })
]
