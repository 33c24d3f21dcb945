-- ===== src/Data/Protocol/RoundTrip.antt =====
-- pipe/data/protocol/agcore_data_protocol.c: sending and receiving end to end on the top protocol.
use agcore.Prelude.{
  ℕ, ◌+◌, ◌%◌, ◌≤◌, ◌<◌, ◌≡◌, ◌≢◌, inr, refl, ap, sym, List, [], ◌∷◌, ◌++◌, some, length, take,
  drop, arith, append-nil, take-length_append, eq-nil_of_length,
}
use agcore.Utils.Check.Sum.{sum}
use agcore.Data.Types.{
  Data, Links, ProtocolState, rawdata_payload_max_len, protocol_state_get, protocol_state_put,
}
use agcore.Data.Types.Table.{get-put_self}
use agcore.Data.Protocol.{rawdata_decode, rawdata_encode}
use agcore.Data.Protocol.Frame.{
  frame, frame_body, length-frame, IsData, payload_of, rawdata_encode_writes,
}
use agcore.Data.Protocol.Decode.{
  IsNew, remember, decoded, rawdata_decode-frame, rawdata_decode_exact, rawdata_decode_repeat_exact,
}

pub payload_of-decoded :
    (d : Data) (sn : ℕ) (payload post : List ℕ) → payload_of (decoded d sn payload post) ≡ payload
unfolding payload_of
payload_of-decoded d sn payload post = ground (
  arith,
  eq-nil_of_length payload,
  take-length_append payload ((sum (frame_body sn payload) % 256 ∷ []) ++ post),
)

-- Let a sender encode a message whose payload has the said length into a buffer with room for it, on
-- a link of its table with send number below 256. A receiver whose last number on its link is another
-- one (or where the number is 0) decodes the bytes that the encoder counted: it returns their count,
-- and a message on its own link with the same payload, its length and the send number, and keeps the
-- number.
pub decode-encode :
    (sender receiver : Links) (d d0 : Data) (buf : List ℕ) (s r : ProtocolState)
    → protocol_state_get sender d.link ≡ some s
    → s.tx_sn < 256
    → IsData d
    → d.payload_len + 9 ≤ length buf
    → protocol_state_get receiver d0.link ≡ some r
    → IsNew r s.tx_sn
    → (out : List ℕ) × (got : Data) × (rawdata_encode sender (some d) (some buf) ≡ (
      protocol_state_put sender d.link (record s { tx_sn = (s.tx_sn + 1) % 256 }),
      some out,
      d.payload_len + 9,
    ))
      × (rawdata_decode receiver (some (take (d.payload_len + 9) out)) (d.payload_len + 9) (some d0)
          ≡ (remember receiver d0.link r s.tx_sn, some got, d.payload_len + 9))
      × (payload_of got ≡ payload_of d)
      × (got.payload_len ≡ d.payload_len)
      × (got.sn ≡ s.tx_sn)
      × (got.link ≡ d0.link)
decode-encode sender receiver d d0 buf s r es byte v room er new = (
  frame s.tx_sn (payload_of d) ++ drop (d.payload_len + 9) buf,
  decoded d0 s.tx_sn (payload_of d) [],
  rawdata_encode_writes sender d buf s es v room,
  received,
  payload_of-decoded d0 s.tx_sn (payload_of d) [],
  v.sized,
  refl,
  refl,
)
  where
    f : List ℕ
    f = frame s.tx_sn (payload_of d)

    size : d.payload_len + 9 ≡ length f
    size = omega (arith, v.sized, length-frame s.tx_sn (payload_of d))

    sent : take (d.payload_len + 9) (f ++ drop (d.payload_len + 9) buf) ≡ f ++ []
    sent =
        let e : length f ≡ length (f ++ []) = ap length (sym (append-nil f)) in
        rw (size, take-length_append f (drop (length f) buf), append-nil f)

    received :
        rawdata_decode receiver
          (some (take (d.payload_len + 9) (f ++ drop (d.payload_len + 9) buf)))
          (d.payload_len + 9)
          (some d0)
        ≡ (
          remember receiver d0.link r s.tx_sn,
          some (decoded d0 s.tx_sn (payload_of d) []),
          d.payload_len + 9,
        )
    received =
        let n : length (f ++ []) ≡ d.payload_len + 9 = rw append-nil (sym size) in
        ground (
          arith,
          sent,
          n,
          rawdata_decode-frame receiver d0 r s.tx_sn (payload_of d) [] er
              (omega (arith, v.sized, v.fits)) byte (omega (arith, v.fits)) new,
        )

-- A frame with a number other than 0 is decoded once: after it, a second frame with the same number on
-- the link is answered by 0, and changes neither the table nor the message.
pub decode_twice :
    (links : Links) (d e : Data) (state : ProtocolState) (sn : ℕ) (payload again : List ℕ)
    → protocol_state_get links d.link ≡ some state
    → e.link ≡ d.link
    → sn ≢ 0
    → sn < 256
    → state.rx_sn ≢ 256 + sn
    → length payload ≤ rawdata_payload_max_len
    → length again ≤ rawdata_payload_max_len
    → let after =
        (rawdata_decode links (some (frame sn payload)) (length payload + 9) (some d)).0 in
      ((rawdata_decode links (some (frame sn payload)) (length payload + 9) (some d)).2
        ≡ length payload + 9)
      × (rawdata_decode after (some (frame sn again)) (length again + 9) (some e)
          ≡ (after, some e, 0))
decode_twice links d e state sn payload again h same nonzero byte new fits fits' =
    let first = rawdata_decode_exact links d state sn payload h fits byte (inr new) in
    let marked = protocol_state_put links d.link (record state { rx_sn = 256 + sn }) in
    let kept : protocol_state_get marked e.link ≡ some (record state { rx_sn = 256 + sn }) =
      rw same (get-put_self links d.link state _ h) in
    ground (
      arith,
      first,
      rawdata_decode_repeat_exact marked e (record state { rx_sn = 256 + sn }) sn again kept fits'
          byte nonzero refl,
    )
