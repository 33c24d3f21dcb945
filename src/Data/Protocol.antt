-- ===== src/Data/Protocol.antt =====
-- pipe/data/protocol/agcore_data_protocol.c. A function that writes through a pointer returns what
-- it points to; on an early return that is the unchanged argument.
pub mod Frame
pub mod Header
pub mod Parse
pub mod Sound
pub mod Decode
pub mod RoundTrip
pub mod Damage
use agcore.Prelude.{
  ℕ, zero, suc, ◌+◌, ◌-◌, List, [], ◌∷◌, ◌++◌, Option, none, some, Bool, true, false, not, ◌&&◌,
  ◌||◌, ◌==◌, ltb, leb, if◌then◌else◌, bit_or, u8, u16, uint16_max, get_or, set, take, drop, store,
}
use agcore.Utils.Bytes.{put_bytes16, get_bytes16}
use agcore.Utils.Check.{checksum8_calc}
use agcore.Platform.Heap.{Block, Heap, Malloc, malloc, free}
use agcore.Data.Types.{
  Data, FragmentState, ProtocolState, Links, rawdata_payload_max_len, protocol_state_get,
  protocol_state_put,
}

abbrev pub top_magic_len : ℕ
top_magic_len = 4

abbrev pub top_head_len : ℕ
top_head_len = 8

abbrev pub top_checksum_len : ℕ
top_checksum_len = 1

abbrev pub top_overhead : ℕ
top_overhead = 9

abbrev pub is_null {ℓ} : {A : Type ℓ} → Option A → Bool
is_null none = true
is_null (some a) = false

unfoldable pub data_link_reset : Links → ℕ → Links
data_link_reset links link = elim (protocol_state_get links link) [
  | none ↦ links
  | some state ↦ protocol_state_put links link (record state { rx_sn = 0; tx_sn = 0 })
]

-- The magic bytes stand at index i.
unfoldable pub is_header_at : List ℕ → ℕ → Bool
is_header_at buf i =
    (get_or buf i 0 == 0x0A)
    && (get_or buf (i + 1) 0 == 0x1B)
    && (get_or buf (i + 2) 0 == 0x2C)
    && (get_or buf (i + 3) 0 == 0x3D)

-- The loop of `top_find_header` from index i, with the rounds left.
unfoldable pub find_header_loop : ℕ → List ℕ → ℕ → ℕ
find_header_loop zero buf i = uint16_max
find_header_loop (suc rounds) buf i =
    let rest = find_header_loop rounds buf (i + 1) in if is_header_at buf i then i else rest

unfoldable pub top_find_header : Option (List ℕ) → ℕ → ℕ
top_find_header none buf_len = uint16_max
top_find_header (some buf) buf_len =
    if ltb buf_len top_magic_len
    then uint16_max
    else find_header_loop (buf_len - top_magic_len + 1) buf 0

-- The `memcpy` of the payload.
unfoldable pub put_payload : List ℕ → Data → List ℕ
put_payload buf d =
    if ltb 0 d.payload_len
    then elim d.payload [ none ↦ buf | some p ↦ store buf top_head_len (take d.payload_len p) ]
    else buf

-- All writes of `rawdata_encode` before the checksum.
unfoldable pub put_body : List ℕ → ℕ → Data → List ℕ
put_body buf sn d =
    let b = set (set (set (set buf 0 0x0A) 1 0x1B) 2 0x2C) 3 0x3D in
    put_payload (put_bytes16 (set (set b 4 0x00) 5 sn) 6 d.payload_len) d

unfoldable pub put_frame : List ℕ → ℕ → Data → List ℕ
put_frame buf sn d =
    let packet_len = u16 (top_overhead + d.payload_len) in
    let body = put_body buf sn d in
    set body (packet_len - 1) (checksum8_calc body (packet_len - top_checksum_len))

-- The links, the buffer and the result: the length of the packet, 0 on failure.
unfoldable pub rawdata_encode : Links → Option Data → Option (List ℕ) → Links × Option (List ℕ) × ℕ
rawdata_encode links none buf = (links, buf, 0)
rawdata_encode links (some d) none = (links, none, 0)
rawdata_encode links (some d) (some buf) = elim (protocol_state_get links d.link) [
  | none ↦ (links, some buf, 0)
  | some state ↦
      if ltb rawdata_payload_max_len d.payload_len || (ltb 0 d.payload_len && is_null d.payload)
      then (links, some buf, 0)
      else (
        protocol_state_put links d.link (record state { tx_sn = u8 (state.tx_sn + 1) }),
        some (put_frame buf state.tx_sn d),
        u16 (top_overhead + d.payload_len),
      )
]

-- What the checks of `rawdata_decode` on the bytes establish.
pub record Packet : Type 0 where
  pub header_pos : ℕ
  pub sn : ℕ
  pub payload_len : ℕ
  pub packet_len : ℕ

-- The checks from the payload length on.
unfoldable pub parse_length : List ℕ → ℕ → ℕ → Option Packet
parse_length buf buf_len pos =
    let payload_len = get_bytes16 buf (pos + 6) in
    let packet_len = u16 (top_overhead + payload_len) in
    if ltb rawdata_payload_max_len payload_len
    then none
    else if ltb (buf_len - pos) packet_len
    then none
    else if checksum8_calc (drop pos buf) (packet_len - top_checksum_len)
        == get_or buf (pos + packet_len - 1) 0
    then some (record {
      header_pos = pos;
      sn = get_or buf (pos + 5) 0;
      payload_len = payload_len;
      packet_len = packet_len;
    })
    else none

unfoldable pub parse_packet : List ℕ → ℕ → Option Packet
parse_packet buf buf_len =
    let pos = top_find_header (some buf) buf_len in
    if pos == uint16_max
    then none
    else if ltb (buf_len - pos) top_overhead
    then none
    else if get_or buf (pos + 4) 0 == 0x00
    then parse_length buf buf_len pos
    else none

-- The links, the data and the result: the length of the packet, 0 on failure.
unfoldable pub accept_packet :
    Links → List ℕ → Data → ProtocolState → Packet → Links × Option Data × ℕ
accept_packet links buf d state p =
    if not (p.sn == 0) && (state.rx_sn == u16 (bit_or 0x100 p.sn)) then (links, some d, 0) else (
      (if p.sn == 0
          then links
          else protocol_state_put links d.link (record state { rx_sn = u16 (bit_or 0x100 p.sn) })),
      some (record d {
        sn = p.sn;
        payload_len = p.payload_len;
        payload =
            if ltb 0 p.payload_len then some (drop (p.header_pos + top_head_len) buf) else none;
      }),
      p.packet_len,
    )

unfoldable pub rawdata_decode : Links → Option (List ℕ) → ℕ → Option Data → Links × Option Data × ℕ
rawdata_decode links none buf_len d = (links, d, 0)
rawdata_decode links (some buf) buf_len none = (links, none, 0)
rawdata_decode links (some buf) buf_len (some d) = elim (protocol_state_get links d.link) [
  | none ↦ (links, some d, 0)
  | some state ↦ elim (parse_packet buf buf_len) [
    | none ↦ (links, some d, 0)
    | some p ↦ accept_packet links buf d state p
  ]
]
