-- ===== src/Data/Protocol/Parse.antt =====
-- pipe/data/protocol/agcore_data_protocol.c: the checks of `agcore_rawdata_decode` on the bytes accept
-- exactly the frames.
use agcore.Prelude.{
  ℕ, ◌+◌, ◌-◌, ◌%◌, ◌≤◌, ◌<◌, ◌≡◌, refl, List, [], ◌∷◌, ◌++◌, some, u8, ◌>>>◌, length,
  length-append, get_or, drop, drop-append, get_or-append_right, arith, append_assoc,
}
use agcore.Prelude.Bits.{bit_or_shifted}
use agcore.Utils.Bytes.{get_bytes16}
use agcore.Utils.Check.{checksum8_calc}
use agcore.Utils.Check.Sum.{sum, checksum8_all}
use agcore.Data.Types.{rawdata_payload_max_len}
use agcore.Data.Protocol.{Packet, top_find_header, parse_length, parse_packet}
use agcore.Data.Protocol.Frame.{frame, frame_body, length-frame}

-- A frame that stands behind `pre` and before `post`.
module _ (pre post payload : List ℕ) (sn : ℕ)
    (fits : length payload ≤ rawdata_payload_max_len) where
  abbrev around : List ℕ
  around = pre ++ (frame sn payload ++ post)

  byte_at : (i : ℕ) → get_or around (length pre + i) 0 ≡ get_or (frame sn payload ++ post) i 0
  byte_at i = get_or-append_right pre (frame sn payload ++ post) i 0

  length_field : get_bytes16 around (length pre + 6) ≡ length payload
  unfolding get_bytes16
  length_field =
      let e : length pre + 6 + 1 ≡ length pre + 7 = omega arith in
      rw (byte_at 6, e, byte_at 7)
        (omega
          (arith, bit_or_shifted 8 (u8 (length payload >>> 8)) (u8 (length payload)) (omega arith)))

  checksum_field :
      get_or around (length pre + (length payload + 9) - 1) 0 ≡ sum (frame_body sn payload) % 256
  checksum_field =
      let e : length pre + (length payload + 9) - 1
          ≡ length pre + (length (frame_body sn payload) + 0) =
        omega arith in
      rw
        (
          e,
          byte_at (length (frame_body sn payload) + 0),
          append_assoc (frame_body sn payload) (sum (frame_body sn payload) % 256 ∷ []) post,
        )
        (get_or-append_right (frame_body sn payload)
          ((sum (frame_body sn payload) % 256 ∷ []) ++ post) 0 0)

  checksum_calc :
      checksum8_calc (drop (length pre) around) (length payload + 9 - 1)
      ≡ sum (frame_body sn payload) % 256
  checksum_calc =
      let e : length payload + 9 - 1 ≡ length (frame_body sn payload) = omega arith in
      rw
        (
          e,
          drop-append pre (frame sn payload ++ post),
          append_assoc (frame_body sn payload) (sum (frame_body sn payload) % 256 ∷ []) post,
        )
        (checksum8_all (frame_body sn payload) (length (frame_body sn payload))
          ((sum (frame_body sn payload) % 256 ∷ []) ++ post) refl)

  length-around : length around ≡ length pre + (length payload + 9) + length post
  length-around = omega (
    arith,
    length-append pre (frame sn payload ++ post),
    length-append (frame sn payload) post,
    length-frame sn payload,
  )

  abbrev packet : Packet
  packet = record {
    header_pos = length pre;
    sn = sn;
    payload_len = length payload;
    packet_len = length payload + 9;
  }

  -- A frame is accepted where the search finds its header.
  pub parse_packet-frame :
      top_find_header (some around) (length around) ≡ length pre
      → length around < 65536
      → parse_packet around (length around) ≡ some packet
  unfolding parse_packet parse_length
  parse_packet-frame found short =
      ground
        (arith, length-around, length_field, checksum_field, checksum_calc, byte_at 4, byte_at 5)
