-- ===== src/Tests/Protocol.antt =====
-- pipe/data/protocol at concrete inputs: the top protocol.
use agcore.Prelude.{
  ℕ, ◌+◌, ◌≤◌, ◌≡◌, ◌⊎◌, inr, refl, List, [], ◌∷◌, ◌++◌, none, some, true, false, length, set, take,
  drop, uint16_max, arith, AllBytes,
}
use agcore.Utils.Bytes.{put_bytes16, get_bytes16}
use agcore.Utils.Check.{checksum8_calc, checksum8_loop}
use agcore.Data.Types.{
  Data, ProtocolState, LinkContext, Links, protocol_state_get, protocol_state_put,
}
use agcore.Data.Protocol.{
  Packet, is_header_at, find_header_loop, top_find_header, put_payload, put_body, put_frame,
  rawdata_encode, parse_length, parse_packet, accept_packet, rawdata_decode,
}
use agcore.Data.Protocol.Frame.{frame, IsData, payload_of, rawdata_encode_writes}
use agcore.Data.Protocol.Header.{NoneBetween, top_find_header_lem}
use agcore.Data.Protocol.Sound.{parse_packet_sound}
use agcore.Data.Protocol.Decode.{remember}
use agcore.Data.Protocol.RoundTrip.{decode-encode, decode_twice}
use agcore.Data.Protocol.Damage.{IsDamage, rawdata_decode_damaged}

abbrev pub fresh_state : ProtocolState
fresh_state = record {
  rx_sn = 0;
  tx_sn = 0;
  fragment = record { buf = none; total_len = 0; received_len = 0 };
}

abbrev fresh_link : LinkContext
fresh_link = record { send_lock = true; send_cb = none; protocol = fresh_state }

abbrev pub sending_state : ProtocolState
sending_state = record fresh_state { tx_sn = 7 }

-- LINK_NONE, LINK_BLE and LINK_UART
abbrev table : Links
table = fresh_link ∷ fresh_link ∷ fresh_link ∷ []

abbrev sender : Links
sender = fresh_link ∷ record fresh_link { protocol = sending_state } ∷ []

abbrev pub message : Data
message = record {
  link = 1;
  sn = 0;
  payload_len = 3;
  payload = some (0xAC ∷ 0x01 ∷ 0x55 ∷ 0x99 ∷ []);
}

abbrev empty_message : Data
empty_message = record { link = 1; sn = 0; payload_len = 0; payload = none }

abbrev room : List ℕ
room = 1 ∷ 2 ∷ 3 ∷ 4 ∷ 5 ∷ 6 ∷ 7 ∷ 8 ∷ 9 ∷ 10 ∷ 11 ∷ 12 ∷ 13 ∷ []

abbrev wire : List ℕ
wire = 0x0A ∷ 0x1B ∷ 0x2C ∷ 0x3D ∷ 0 ∷ 7 ∷ 0 ∷ 3 ∷ 0xAC ∷ 0x01 ∷ 0x55 ∷ 0x9A ∷ []

abbrev behind_noise : List ℕ
behind_noise = 0x0A ∷ 0x1B ∷ wire

pub message-IsData : IsData message
unfolding payload_of
message-IsData = omega arith

sender_state : protocol_state_get sender 1 ≡ some sending_state
unfolding protocol_state_get
sender_state = refl

table_state : protocol_state_get table 1 ≡ some fresh_state
unfolding protocol_state_get
table_state = refl

encode_run : rawdata_encode sender (some message) (some room) ≡ (
  protocol_state_put sender 1 (record sending_state { tx_sn = 8 }),
  some (wire ++ (13 ∷ [])),
  12,
)
unfolding rawdata_encode put_frame put_body put_payload put_bytes16 protocol_state_get
    protocol_state_put checksum8_calc checksum8_loop
encode_run = refl

decode_run : (rawdata_decode table (some behind_noise) 14 (some empty_message)).2 ≡ 12
unfolding rawdata_decode accept_packet parse_packet parse_length top_find_header find_header_loop
    is_header_at get_bytes16 protocol_state_get checksum8_calc checksum8_loop
decode_run = refl

abbrev parsed : Packet
parsed = record { header_pos = 2; sn = 7; payload_len = 3; packet_len = 12 }

noise_parsed : parse_packet behind_noise 14 ≡ some parsed
unfolding parse_packet parse_length top_find_header find_header_loop is_header_at get_bytes16
    checksum8_calc checksum8_loop
noise_parsed = refl

decode-encode_example :
    (out : List ℕ) × (got : Data) × (rawdata_encode sender (some message) (some room)
      ≡ (protocol_state_put sender 1 (record sending_state { tx_sn = 8 }), some out, 12))
    × (rawdata_decode table (some (take 12 out)) 12 (some empty_message)
        ≡ (remember table 1 fresh_state 7, some got, 12))
    × (payload_of got ≡ payload_of message)
    × (got.payload_len ≡ 3)
    × (got.sn ≡ 7)
    × (got.link ≡ 1)
decode-encode_example =
    decode-encode sender table message empty_message room sending_state fresh_state sender_state
      (omega arith) message-IsData (omega arith) table_state (inr (omega arith))

decode_twice_example :
    let after = (rawdata_decode table (some (frame 7 (1 ∷ 2 ∷ []))) 11 (some empty_message)).0 in
    ((rawdata_decode table (some (frame 7 (1 ∷ 2 ∷ []))) 11 (some empty_message)).2 ≡ 11)
    × (rawdata_decode after (some (frame 7 (5 ∷ []))) 10 (some message) ≡ (after, some message, 0))
decode_twice_example =
    decode_twice table empty_message message fresh_state 7 (1 ∷ 2 ∷ []) (5 ∷ []) table_state refl
      (omega arith) (omega arith) (omega arith) (omega arith) (omega arith)

damage : IsDamage 7 (0xAC ∷ 0x01 ∷ 0x55 ∷ []) 9 0x02
damage = record {
  fits = omega arith;
  behind = omega arith;
  no_high = omega arith;
  no_low = omega arith;
  inside = omega arith;
  differs = omega arith;
  byte = omega arith;
  bytes = ground arith;
}

rawdata_decode_damaged_example :
    rawdata_decode table
      (some (set (frame 7 (0xAC ∷ 0x01 ∷ 0x55 ∷ [])) 9 0x02))
      12
      (some empty_message)
    ≡ (table, some empty_message, 0)
rawdata_decode_damaged_example =
    rawdata_decode_damaged table empty_message 7 (0xAC ∷ 0x01 ∷ 0x55 ∷ []) 9 0x02 damage

noise-AllBytes : AllBytes behind_noise
noise-AllBytes = ground arith

parse_packet_sound_example :
    let payload = take 3 (drop 10 behind_noise) in
    (behind_noise ≡ take 2 behind_noise ++ (frame 7 payload ++ drop 14 behind_noise))
    × (length (take 2 behind_noise) ≡ 2)
    × (length payload ≡ 3)
    × (parsed.packet_len ≡ 12)
parse_packet_sound_example =
    parse_packet_sound behind_noise parsed noise-AllBytes (omega arith) noise_parsed

rawdata_encode_writes_example : rawdata_encode sender (some message) (some room) ≡ (
  protocol_state_put sender 1 (record sending_state { tx_sn = 8 }),
  some (frame 7 (payload_of message) ++ (13 ∷ [])),
  12,
)
rawdata_encode_writes_example =
    rawdata_encode_writes sender message room sending_state sender_state message-IsData
      (omega arith)

top_find_header_lem_example :
    let pos = top_find_header (some behind_noise) 14 in
    ((pos + 4 ≤ 14) × (is_header_at behind_noise pos ≡ true) × NoneBetween behind_noise 0 pos)
    ⊎ ((pos ≡ uint16_max) × ((j : ℕ) → j + 4 ≤ 14 → is_header_at behind_noise j ≡ false))
top_find_header_lem_example = top_find_header_lem behind_noise (omega arith)
