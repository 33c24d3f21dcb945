-- ===== src/Data/Protocol/Decode.antt =====
-- pipe/data/protocol/agcore_data_protocol.c: `agcore_rawdata_decode` gives back what
-- `agcore_rawdata_encode` framed, drops repetitions, and rejects damaged frames.
use agcore.Prelude.{
  ℕ, ◌+◌, ◌%◌, ◌≤◌, ◌<◌, ◌≡◌, ◌≢◌, ◌⊎◌, List, [], ◌∷◌, ◌++◌, none, some, u16, length, arith,
  append_assoc, append-nil, bit_or, if◌then◌else◌, ◌==◌, ltb,
}
use agcore.Prelude.Bits.{bit_or_shifted}
use agcore.Utils.Check.Sum.{sum}
use agcore.Data.Types.{
  Data, Links, ProtocolState, rawdata_payload_max_len, protocol_state_get, protocol_state_put,
}
use agcore.Data.Protocol.{
  top_find_header, is_header_at, find_header_loop, accept_packet, rawdata_decode,
}
use agcore.Data.Protocol.Frame.{frame, frame_body, length-frame}
use agcore.Data.Protocol.Parse.{parse_packet-frame}

-- `0x100 | sn`
seen_mark : (sn : ℕ) → sn < 256 → u16 (bit_or 0x100 sn) ≡ 256 + sn
seen_mark sn h = omega (arith, bit_or_shifted 8 1 sn h)

-- The number of the frame was not the last one received; 0 is never taken for a repetition.
abbrev pub IsNew : ProtocolState → ℕ → Type 0
IsNew state sn = (sn ≡ 0) ⊎ (state.rx_sn ≢ 256 + sn)

-- What the receive side of a link keeps of a frame.
abbrev pub remember : Links → ℕ → ProtocolState → ℕ → Links
remember links link state sn =
    if sn == 0 then links else protocol_state_put links link (record state { rx_sn = 256 + sn })

top_find_header-frame :
    (sn : ℕ) (payload post : List ℕ)
    → top_find_header (some (frame sn payload ++ post)) (length (frame sn payload ++ post)) ≡ 0
unfolding top_find_header find_header_loop is_header_at
top_find_header-frame sn payload post = ground arith

-- The pointer into the frame: the payload, the checksum and what follows.
abbrev rest : ℕ → List ℕ → List ℕ → List ℕ
rest sn payload post = payload ++ ((sum (frame_body sn payload) % 256 ∷ []) ++ post)

-- The message that a frame is decoded to, from the caller's message.
abbrev pub decoded : Data → ℕ → List ℕ → List ℕ → Data
decoded d sn payload post = record d {
  sn = sn;
  payload_len = length payload;
  payload = if ltb 0 (length payload) then some (rest sn payload post) else none;
}

module _ (links : Links) (d : Data) (state : ProtocolState) (sn : ℕ) (payload post : List ℕ) where
  abbrev input : List ℕ
  input = frame sn payload ++ post

  pub rawdata_decode-frame :
      protocol_state_get links d.link ≡ some state
      → length payload ≤ rawdata_payload_max_len
      → sn < 256
      → length input < 65536
      → IsNew state sn
      → rawdata_decode links (some input) (length input) (some d)
        ≡ (remember links d.link state sn, some (decoded d sn payload post), length payload + 9)
  unfolding rawdata_decode accept_packet
  rawdata_decode-frame e fits byte short new = ground (
    arith,
    parse_packet-frame [] post payload sn fits (top_find_header-frame sn payload post) short,
    seen_mark sn byte,
    append_assoc payload (sum (frame_body sn payload) % 256 ∷ []) post,
  )

  -- The number of the last frame is not accepted again, unless it is 0.
  pub rawdata_decode_repeat :
      protocol_state_get links d.link ≡ some state
      → length payload ≤ rawdata_payload_max_len
      → sn < 256
      → length input < 65536
      → sn ≢ 0
      → state.rx_sn ≡ 256 + sn
      → rawdata_decode links (some input) (length input) (some d) ≡ (links, some d, 0)
  unfolding rawdata_decode accept_packet
  rawdata_decode_repeat e fits byte short nonzero old = ground (
    arith,
    parse_packet-frame [] post payload sn fits (top_find_header-frame sn payload post) short,
    seen_mark sn byte,
  )

module _ (links : Links) (d : Data) (state : ProtocolState) (sn : ℕ) (payload : List ℕ) where
  -- The same, where nothing follows the frame.
  pub rawdata_decode_exact :
      protocol_state_get links d.link ≡ some state
      → length payload ≤ rawdata_payload_max_len
      → sn < 256
      → IsNew state sn
      → rawdata_decode links (some (frame sn payload)) (length payload + 9) (some d)
        ≡ (remember links d.link state sn, some (decoded d sn payload []), length payload + 9)
  rawdata_decode_exact e fits byte new = ground (
    arith,
    append-nil (frame sn payload),
    length-frame sn payload,
    rawdata_decode-frame links d state sn payload [] e fits byte,
  )

  pub rawdata_decode_repeat_exact :
      protocol_state_get links d.link ≡ some state
      → length payload ≤ rawdata_payload_max_len
      → sn < 256
      → sn ≢ 0
      → state.rx_sn ≡ 256 + sn
      → rawdata_decode links (some (frame sn payload)) (length payload + 9) (some d)
        ≡ (links, some d, 0)
  rawdata_decode_repeat_exact e fits byte nonzero old = ground (
    arith,
    append-nil (frame sn payload),
    length-frame sn payload,
    rawdata_decode_repeat links d state sn payload [] e fits byte,
  )
