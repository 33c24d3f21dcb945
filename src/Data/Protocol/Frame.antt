-- ===== src/Data/Protocol/Frame.antt =====
-- pipe/data/protocol/agcore_data_protocol.c: the bytes that `agcore_rawdata_encode` writes, against a
-- frame written down as a list.
use agcore.Prelude.{
  eight_bytes, ℕ, suc, ◌+◌, ◌-◌, ◌%◌, ◌≤◌, ◌<◌, ◌≡◌, refl, sym, List, [], ◌∷◌, ◌++◌, none, some, u8,
  u16, ◌>>>◌, length, length-append, get_or, take, drop, drop-eq-cons, store, store_front,
  set-append, append_assoc, arith, eq-nil_of_length,
}
use agcore.Utils.Bytes.{put_bytes16}
use agcore.Utils.Check.Sum.{sum, checksum8_all}
use agcore.Data.Types.{
  Data, rawdata_payload_max_len, Links, ProtocolState, protocol_state_get, protocol_state_put,
}
use agcore.Data.Protocol.{put_payload, put_body, put_frame, rawdata_encode}

-- Header, version, number, length and payload.
abbrev pub frame_body : ℕ → List ℕ → List ℕ
frame_body sn payload =
    0x0A
    ∷ 0x1B
    ∷ 0x2C
    ∷ 0x3D
    ∷ 0x00
    ∷ sn
    ∷ u8 (length payload >>> 8)
    ∷ u8 (length payload)
    ∷ payload

abbrev pub frame : ℕ → List ℕ → List ℕ
frame sn payload = frame_body sn payload ++ (sum (frame_body sn payload) % 256 ∷ [])

-- The bytes that a message carries.
unfoldable pub payload_of : Data → List ℕ
payload_of d = elim d.payload [ none ↦ [] | some p ↦ take d.payload_len p ]

-- The payload has the length that is said, and fits a frame.
pub record IsData (d : Data) : Type 0 where
  pub sized : length (payload_of d) ≡ d.payload_len
  pub fits : d.payload_len ≤ rawdata_payload_max_len

pub length-frame : (sn : ℕ) (payload : List ℕ) → length (frame sn payload) ≡ length payload + 9
length-frame sn payload =
    omega (arith, length-append payload (sum (frame_body sn payload) % 256 ∷ []))

store_nil : (buf : List ℕ) → store buf 0 [] ≡ buf
store_nil [] = refl
store_nil (x ∷ xs) = refl

put_payload_lem :
    (d : Data) (a b c e f g h i : ℕ) (rest : List ℕ)
    → length (payload_of d) ≡ d.payload_len
    → put_payload (a ∷ b ∷ c ∷ e ∷ f ∷ g ∷ h ∷ i ∷ rest) d
      ≡ a ∷ b ∷ c ∷ e ∷ f ∷ g ∷ h ∷ i ∷ store rest 0 (payload_of d)
unfolding put_payload payload_of
put_payload_lem d a b c e f g h i rest s =
    ground (arith, store_nil rest, eq-nil_of_length (payload_of d))

put_body_lem :
    (d : Data) (sn : ℕ) (buf : List ℕ)
    → IsData d
    → 8 + d.payload_len < length buf
    → put_body buf sn d ≡ frame_body sn (payload_of d) ++ drop (8 + d.payload_len) buf
unfolding put_body put_bytes16
put_body_lem d sn buf v h =
    eight_bytes
      (λ b.
        8 + d.payload_len < length b
        → put_body b sn d ≡ frame_body sn (payload_of d) ++ drop (8 + d.payload_len) b)
      buf (λ a b c e f g i j rest fits. named a b c e f g i j rest (omega arith)) (omega arith) h
  where
    named :
        (a b c e f g i j : ℕ) (rest : List ℕ)
        → d.payload_len < length rest
        → put_body (a ∷ b ∷ c ∷ e ∷ f ∷ g ∷ i ∷ j ∷ rest) sn d
          ≡ frame_body sn (payload_of d)
            ++ drop (8 + d.payload_len) (a ∷ b ∷ c ∷ e ∷ f ∷ g ∷ i ∷ j ∷ rest)
    named a b c e f g i j rest fits =
        let k : 8 + d.payload_len ≡ suc (suc (suc (suc (suc (suc (suc (suc d.payload_len))))))) =
          omega arith in
        rw (
          k,
          put_payload_lem d 0x0A 0x1B 0x2C 0x3D 0x00 sn (u8 (d.payload_len >>> 8))
              (u8 d.payload_len) rest v.sized,
          store_front rest (payload_of d) (omega (arith, v.sized)),
          v.sized,
        )

-- `put_frame` leaves the frame of the message in front of what stood behind it.
pub put_frame_lem :
    (d : Data) (sn : ℕ) (buf : List ℕ)
    → IsData d
    → d.payload_len + 9 ≤ length buf
    → put_frame buf sn d ≡ frame sn (payload_of d) ++ drop (d.payload_len + 9) buf
unfolding put_frame
put_frame_lem d sn buf v h =
    let body = frame_body sn (payload_of d) in
    let len : u16 (9 + d.payload_len) - 1 ≡ length body = omega (arith, v.sized) in
    let at : d.payload_len + 9 ≡ suc (8 + d.payload_len) = omega arith in
    let last : drop (8 + d.payload_len) buf
        ≡ get_or buf (8 + d.payload_len) 0 ∷ drop (d.payload_len + 9) buf =
      rw at (drop-eq-cons (8 + d.payload_len) buf 0 (omega arith)) in
    rw
      (
        put_body_lem d sn buf v (omega arith),
        last,
        len,
        checksum8_all body (length body)
            (get_or buf (8 + d.payload_len) 0 ∷ drop (d.payload_len + 9) buf) refl,
        set-append body (get_or buf (8 + d.payload_len) 0) (sum body % 256)
            (drop (d.payload_len + 9) buf),
      )
      (sym (append_assoc body (sum body % 256 ∷ []) (drop (d.payload_len + 9) buf)))

-- For a message whose payload has the said length, on a link of the table, and a buffer with room
-- for it, `rawdata_encode` returns the payload's length and 9, leaves the frame with the link's send
-- number in front of the buffer, changes nothing behind it, and counts the send number up modulo 256.
pub rawdata_encode_writes :
    (links : Links) (d : Data) (buf : List ℕ) (state : ProtocolState)
    → protocol_state_get links d.link ≡ some state
    → IsData d
    → d.payload_len + 9 ≤ length buf
    → rawdata_encode links (some d) (some buf) ≡ (
      protocol_state_put links d.link (record state { tx_sn = (state.tx_sn + 1) % 256 }),
      some (frame state.tx_sn (payload_of d) ++ drop (d.payload_len + 9) buf),
      d.payload_len + 9,
    )
unfolding rawdata_encode payload_of
rawdata_encode_writes links d buf state e v h = ground (arith, put_frame_lem d state.tx_sn buf v h)
