-- ===== src/Data/Protocol/Damage.antt =====
-- pipe/data/protocol/agcore_data_protocol.c: what `agcore_rawdata_decode` makes of a frame with a
-- damaged byte.
use agcore.Prelude.{
  ℕ, ◌+◌, ◌%◌, ◌≤◌, ◌<◌, ◌≡◌, ◌≢◌, sym, List, [], ◌∷◌, none, some, length, get_or, set, AllBytes,
  AllBytes-get_or, arith, length-set, get_or-set_ne, get_or-set_self, get_or-append_right, u8,
  ◌>>>◌,
}
use agcore.Prelude.Bits.{bit_or_shifted}
use agcore.Utils.Bytes.{get_bytes16}
use agcore.Utils.Check.{checksum8_calc}
use agcore.Utils.Check.Sum.{sum, checksum8_all, checksum8-set_ne, checksum8-set_beyond}
use agcore.Data.Types.{Data, Links, rawdata_payload_max_len}
use agcore.Data.Protocol.{
  is_header_at, top_find_header, find_header_loop, parse_length, parse_packet, rawdata_decode,
}
use agcore.Data.Protocol.Frame.{frame, frame_body, length-frame}

module _ (sn : ℕ) (payload : List ℕ) (i v : ℕ) where
  abbrev whole : List ℕ
  whole = frame sn payload

  abbrev damaged : List ℕ
  damaged = set whole i v

  -- The places of a frame that the checks compare with the others: not the magic bytes, nor the length.
  pub record IsDamage : Type 0 where
    pub fits : length payload ≤ rawdata_payload_max_len
    pub behind : 4 ≤ i
    pub no_high : i ≢ 6
    pub no_low : i ≢ 7
    pub inside : i < length payload + 9
    pub differs : v ≢ get_or whole i 0
    pub byte : v < 256
    pub bytes : AllBytes whole

  same_at : (j : ℕ) → j ≢ i → get_or damaged j 0 ≡ get_or whole j 0
  same_at j n = get_or-set_ne whole i j v 0 (λ e. n (sym e))

  found : IsDamage → top_find_header (some damaged) (length damaged) ≡ 0
  unfolding top_find_header find_header_loop is_header_at
  found d = ground (arith, same_at 0, same_at 1, same_at 2, same_at 3, length-set whole i v)

  field : IsDamage → get_bytes16 damaged 6 ≡ length payload
  unfolding get_bytes16
  field d = ground (
    arith,
    same_at 6,
    same_at 7,
    bit_or_shifted 8 (u8 (length payload >>> 8)) (u8 (length payload)),
  )

  check_fails :
      IsDamage → checksum8_calc damaged (length payload + 8) ≢ get_or damaged (length payload + 8) 0
  check_fails d e = ground (
    arith,
    length-frame sn payload,
    checksum8_all (frame_body sn payload) (length payload + 8)
        (sum (frame_body sn payload) % 256 ∷ []) (omega arith),
    last,
    AllBytes-get_or whole i d.bytes,
    checksum8-set_ne whole (length payload + 8) i v,
    checksum8-set_beyond whole (length payload + 8) i v,
    same_at (length payload + 8),
    get_or-set_self whole i v 0,
  )
    where
      last : get_or whole (length payload + 8) 0 ≡ sum (frame_body sn payload) % 256
      last =
          let at : length payload + 8 ≡ length (frame_body sn payload) + 0 = omega arith in
          rw at (
            get_or-append_right (frame_body sn payload) (sum (frame_body sn payload) % 256 ∷ []) 0
              0)

  parse_damaged : IsDamage → parse_packet damaged (length damaged) ≡ none
  unfolding parse_packet parse_length
  parse_damaged d = ground (
    arith,
    found d,
    field d,
    check_fails d,
    length-set whole i v,
    length-frame sn payload,
    same_at 4,
    get_or-set_self whole i v 0,
  )

-- A frame of bytes in which one byte is replaced by another one, its magic bytes and its length apart,
-- is answered by 0 on every link and table, and changes neither the table nor the message.
pub rawdata_decode_damaged :
    (links : Links) (d : Data) (sn : ℕ) (payload : List ℕ) (i v : ℕ)
    → IsDamage sn payload i v
    → rawdata_decode links (some (set (frame sn payload) i v)) (length payload + 9) (some d)
      ≡ (links, some d, 0)
unfolding rawdata_decode
rawdata_decode_damaged links d sn payload i v damage = ground (
  arith,
  parse_damaged sn payload i v damage,
  length-set (frame sn payload) i v,
  length-frame sn payload,
)
