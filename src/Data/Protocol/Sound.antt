-- ===== src/Data/Protocol/Sound.antt =====
-- pipe/data/protocol/agcore_data_protocol.c: whatever the checks of `agcore_rawdata_decode` accept is a
-- frame.
use agcore.Prelude.{
  eight_bytes, ℕ, suc, ◌+◌, ◌*◌, ◌%◌, ◌≤◌, ◌<◌, ◌≡◌, refl, ap, ap₂, sym, ◌∙◌, List, [], ◌∷◌, ◌++◌,
  some, true, u8, ◌>>>◌, length, length-drop, length-take_le, get_or, get_or-drop, take, drop,
  drop-drop, drop-eq-cons, take-append-drop, AllBytes, AllBytes-get_or, arith, append_assoc,
}
use agcore.Utils.Bytes.{get_bytes16, get_bytes16_lem}
use agcore.Utils.Check.{checksum8_calc}
use agcore.Utils.Check.Sum.{sum, checksum8_all}
use agcore.Data.Types.{rawdata_payload_max_len}
use agcore.Data.Protocol.{Packet, is_header_at, parse_length, parse_packet}
use agcore.Data.Protocol.Header.{top_find_header_lem}
use agcore.Data.Protocol.Frame.{frame, frame_body}

-- What the tests of `parse_packet` say of the packet that they let through.
record Checked (buf : List ℕ) (p : Packet) : Type 0 where
  at_header : is_header_at buf p.header_pos ≡ true
  version : get_or buf (p.header_pos + 4) 0 ≡ 0
  number : p.sn ≡ get_or buf (p.header_pos + 5) 0
  size : p.payload_len ≡ get_bytes16 buf (p.header_pos + 6)
  fits : p.payload_len ≤ rawdata_payload_max_len
  whole : p.packet_len ≡ p.payload_len + 9
  inside : p.header_pos + p.packet_len ≤ length buf
  check :
      checksum8_calc (drop p.header_pos buf) (p.payload_len + 8)
      ≡ get_or buf (p.header_pos + (p.payload_len + 8)) 0

parse_packet-Checked :
    (buf : List ℕ) (p : Packet)
    → length buf < 65536
    → parse_packet buf (length buf) ≡ some p
    → Checked buf p
unfolding parse_packet parse_length
parse_packet-Checked buf p h e = ground (arith, top_find_header_lem buf h)

-- Bytes that pass the tests of a frame with so long a payload.
record Looks (x : List ℕ) (sn len : ℕ) : Type 0 where
  fits : len ≤ rawdata_payload_max_len
  room : len + 9 ≤ length x
  header : is_header_at x 0 ≡ true
  version : get_or x 4 0 ≡ 0
  number : get_or x 5 0 ≡ sn
  high : get_or x 6 0 ≡ u8 (len >>> 8)
  low : get_or x 7 0 ≡ u8 len
  check : checksum8_calc x (len + 8) ≡ get_or x (len + 8) 0

split_at :
    (len : ℕ) (xs : List ℕ)
    → len < length xs
    → xs ≡ take len xs ++ (get_or xs len 0 ∷ drop (suc len) xs)
split_at len xs h =
    sym (take-append-drop len xs) ∙ ap (λ t. take len xs ++ t) (drop-eq-cons len xs 0 h)

module _ (sn len a b c d e f g h : ℕ) (rest : List ℕ) where
  abbrev bytes : List ℕ
  bytes = a ∷ b ∷ c ∷ d ∷ e ∷ f ∷ g ∷ h ∷ rest

  abbrev body : List ℕ
  body = frame_body sn (take len rest)

  bytes-eq-body : Looks bytes sn len → bytes ≡ body ++ (get_or rest len 0 ∷ drop (suc len) rest)
  unfolding is_header_at
  bytes-eq-body v = ground (arith, split_at len rest, length-take_le len rest)

  checksum-eq : Looks bytes sn len → get_or rest len 0 ≡ sum body % 256
  checksum-eq v =
      let at : len + 8 ≡ suc (suc (suc (suc (suc (suc (suc (suc len))))))) = omega arith in
      let calc : checksum8_calc bytes (len + 8) ≡ sum body % 256 = rw (bytes-eq-body v) (
        checksum8_all body (len + 8) (get_or rest len 0 ∷ drop (suc len) rest)
          (omega (arith, v.room, length-take_le len rest))) in
      let last : get_or bytes (len + 8) 0 ≡ get_or rest len 0 = rw at in
      sym last ∙ sym v.check ∙ calc

  bytes-eq-frame : Looks bytes sn len → bytes ≡ frame sn (take len rest) ++ drop (suc len) rest
  bytes-eq-frame v =
      bytes-eq-body v
      ∙ ap (λ (k : ℕ). body ++ (k ∷ drop (suc len) rest)) (checksum-eq v)
      ∙ sym (append_assoc body (sum body % 256 ∷ []) (drop (suc len) rest))

-- Bytes that look like a frame are one.
frame_of_bytes :
    (x : List ℕ) (sn len : ℕ)
    → Looks x sn len
    → x ≡ frame sn (take len (drop 8 x)) ++ drop (len + 9) x
frame_of_bytes x sn len v =
    eight_bytes (λ y. Looks y sn len → y ≡ frame sn (take len (drop 8 y)) ++ drop (len + 9) y) x
      (λ a b c d e f g h rest w.
        let at : len + 9 ≡ suc (suc (suc (suc (suc (suc (suc (suc (suc len)))))))) = omega arith in
        rw at (bytes-eq-frame sn len a b c d e f g h rest w))
      (omega (arith, v.room)) v

-- The tests read the buffer from the header on.
Checked-Looks :
    (buf : List ℕ) (p : Packet)
    → AllBytes buf
    → Checked buf p
    → Looks (drop p.header_pos buf) p.sn p.payload_len
unfolding is_header_at
Checked-Looks buf p bytes c = record {
  fits = c.fits;
  room = omega (arith, c.inside, c.whole, length-drop p.header_pos buf);
  header = ground (arith, c.at_header, at 0, at 1, at 2, at 3);
  version = ground (arith, c.version, at 4);
  number = ground (arith, c.number, at 5);
  high = ground (arith, field, at 6, byte 6, byte 7);
  low = ground (arith, field, at 7, byte 6, byte 7);
  check = ground (arith, c.check, at (p.payload_len + 8));
}
  where
    at : (i : ℕ) → get_or (drop p.header_pos buf) i 0 ≡ get_or buf (p.header_pos + i) 0
    at i = get_or-drop p.header_pos i buf 0

    byte : (i : ℕ) → get_or buf (p.header_pos + i) 0 < 256
    byte i = AllBytes-get_or buf (p.header_pos + i) bytes

    field : p.payload_len ≡ get_or buf (p.header_pos + 6) 0 * 256 + get_or buf (p.header_pos + 7) 0
    field =
        let e : p.header_pos + 6 + 1 ≡ p.header_pos + 7 = omega arith in
        c.size ∙ rw (get_bytes16_lem buf (p.header_pos + 6) (byte 6) (rw e (byte 7)), e) refl

-- What `parse_packet` accepts in a buffer of bytes whose length is that of a `uint16_t` is a frame
-- that stands in the buffer, at the index that it gives, with the number and the payload length that
-- it gives.
pub parse_packet_sound :
    (buf : List ℕ) (p : Packet)
    → AllBytes buf
    → length buf < 65536
    → parse_packet buf (length buf) ≡ some p
    → let payload = take p.payload_len (drop (p.header_pos + 8) buf) in
      (buf
        ≡ take p.header_pos buf ++ (frame p.sn payload ++ drop (p.header_pos + p.packet_len) buf))
      × (length (take p.header_pos buf) ≡ p.header_pos)
      × (length payload ≡ p.payload_len)
      × (p.packet_len ≡ p.payload_len + 9)
parse_packet_sound buf p bytes short e = (
  sym (take-append-drop p.header_pos buf)
      ∙ ap (λ t. take p.header_pos buf ++ t)
          (frame_of_bytes (drop p.header_pos buf) p.sn p.payload_len (Checked-Looks buf p bytes c)
            ∙ ap₂ (λ y z. frame p.sn (take p.payload_len y) ++ z) (drop-drop 8 p.header_pos buf)
                end),
  length-take_le p.header_pos buf (omega (arith, c.inside)),
  length-take_le p.payload_len (drop (p.header_pos + 8) buf)
      (omega (arith, c.inside, c.whole, length-drop (p.header_pos + 8) buf)),
  c.whole,
)
  where
    c : Checked buf p
    c = parse_packet-Checked buf p short e

    end : drop (p.payload_len + 9) (drop p.header_pos buf) ≡ drop (p.header_pos + p.packet_len) buf
    end =
        drop-drop (p.payload_len + 9) p.header_pos buf
        ∙ ap (λ (k : ℕ). drop (p.header_pos + k) buf) (sym c.whole)
