-- ===== src/Data/Fragment.antt =====
-- pipe/data/protocol/agcore_data_protocol.c: splitting into fragments and putting them together. The
-- functions return the heap and the state that they leave.
pub mod Step
pub mod Receive
pub mod Reassembly
use agcore.Prelude.{
  ℕ, ◌+◌, ◌-◌, List, [], ◌∷◌, ◌++◌, Option, none, some, Bool, true, false, not, ◌||◌, ◌==◌, ltb,
  leb, if◌then◌else◌, u16, take, drop, store,
}
use agcore.Utils.Bytes.{put_bytes16, get_bytes16}
use agcore.Platform.Heap.{Block, Heap, Malloc, malloc, free}
use agcore.Data.Types.{FragmentState}

-- AGCORE_FRAGMENT_HEADER_LEN
abbrev pub fragment_header_len : ℕ
fragment_header_len = 4

-- `agcore_fragment_result`
pub data FragmentResult : Type 0 where
  error more complete no_memory : FragmentResult

-- The zeroed state.
abbrev pub no_fragment : FragmentState
no_fragment = record { buf = none; total_len = 0; received_len = 0 }

-- `agcore_fragment_reset` of a state that is there.
unfoldable pub clear : Heap → FragmentState → Heap × FragmentState
clear h s = (free s.buf h, no_fragment)

unfoldable pub fragment_reset : Heap → Option FragmentState → Heap × Option FragmentState
fragment_reset h none = (h, none)
fragment_reset h (some s) = let (h', s') = clear h s in (h', some s')

abbrev pub reject : Heap → FragmentState → Heap × FragmentState × FragmentResult
reject h s = let (h', s') = clear h s in (h', s', error)

-- The copy into the block, and the count of the bytes received; `p` points to the fragment.
unfoldable pub copy_chunk :
    Heap → FragmentState → Block → List ℕ → ℕ → ℕ → ℕ → Heap × FragmentState × FragmentResult
copy_chunk h s b p total_len offset chunk_len =
    let received = u16 (s.received_len + chunk_len) in
    (
      h,
      record s {
        buf = some (record b {
          bytes = store b.bytes offset (take chunk_len (drop fragment_header_len p));
        });
        received_len = received;
      },
      (if received == total_len then complete else more),
    )

-- From the comparison with the current message on.
unfoldable pub append_chunk :
    Heap → FragmentState → List ℕ → ℕ → ℕ → ℕ → Heap × FragmentState × FragmentResult
append_chunk h s p total_len offset chunk_len = elim s.buf [
  | none ↦ reject h s
  | some b ↦
      if not (s.total_len == total_len) || not (s.received_len == offset)
      then reject h s
      else copy_chunk h s b p total_len offset chunk_len
]

-- A fragment at offset 0 starts a message in a new block.
unfoldable pub start_message :
    Malloc → Heap → FragmentState → List ℕ → ℕ → ℕ → Heap × FragmentState × FragmentResult
start_message m h s p total_len chunk_len =
    let (h1, s1) = clear h s in
    let (h2, block) = malloc m total_len h1 in
    elim block [
      | none ↦ (h2, s1, no_memory)
      | some b ↦
          append_chunk h2 (record s1 { buf = some b; total_len = total_len }) p total_len 0
            chunk_len
    ]

-- The call with a state that is there.
unfoldable pub fragment_receive :
    Malloc → Heap → FragmentState → Option (List ℕ) → ℕ → ℕ → Heap × FragmentState × FragmentResult
fragment_receive m h s none len max_len = reject h s
fragment_receive m h s (some p) len max_len =
    if leb len fragment_header_len
    then reject h s
    else let total_len = get_bytes16 p 0 in
      let offset = get_bytes16 p 2 in
      let chunk_len = len - fragment_header_len in
      if (total_len == 0)
        || ltb max_len total_len
        || leb total_len offset
        || ltb (total_len - offset) chunk_len
      then reject h s
      else if offset == 0
      then start_message m h s p total_len chunk_len
      else append_chunk h s p total_len offset chunk_len

unfoldable pub fragment_decode :
    Malloc
    → Heap
    → Option FragmentState
    → Option (List ℕ)
    → ℕ
    → ℕ
    → Heap × Option FragmentState × FragmentResult
fragment_decode m h none p len max_len = (h, none, error)
fragment_decode m h (some s) p len max_len =
    let (h', s', r) = fragment_receive m h s p len max_len in (h', some s', r)

unfoldable pub fragment_encode : List ℕ → ℕ → ℕ → List ℕ
fragment_encode header total_len offset = put_bytes16 (put_bytes16 header 0 total_len) 2 offset
