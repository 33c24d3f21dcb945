-- ===== src/Data/Fragment/Receive.antt =====
-- pipe/data/protocol/agcore_data_protocol.c: what `agcore_fragment_decode` does with the next fragment
-- of the current message, and with the first one of a message.
use agcore.Prelude.{
  ℕ, ◌+◌, ◌≤◌, ◌<◌, ◌≡◌, refl, ap, List, [], ◌∷◌, ◌++◌, some, length, length-append, take, store,
  store-append, store_front, drop-append, append_assoc, arith, u8, ◌>>>◌, if◌then◌else◌, ◌==◌,
}
use agcore.Prelude.Bits.{bit_or_shifted}
use agcore.Platform.Heap.{Heap, Malloc, free}
use agcore.Utils.Bytes.{get_bytes16, put_bytes16, bytes16}
use agcore.Data.Types.{FragmentState}
use agcore.Data.Fragment.{
  FragmentResult, more, complete, copy_chunk, append_chunk, fragment_receive, fragment_encode,
}
use agcore.Data.Fragment.Step.{fresh, start_message-some}

-- The bytes of a fragment on the wire.
abbrev pub fragment : ℕ → ℕ → List ℕ → List ℕ
fragment total offset chunk = bytes16 total ++ (bytes16 offset ++ chunk)

-- `fragment_encode` writes the header of that form into any four bytes.
pub fragment_encode_lem :
    (a b c d total offset : ℕ)
    → fragment_encode (a ∷ b ∷ c ∷ d ∷ []) total offset ≡ bytes16 total ++ bytes16 offset
unfolding fragment_encode put_bytes16
fragment_encode_lem a b c d total offset = refl

total_field :
    (total offset : ℕ) (chunk : List ℕ)
    → total < 65536
    → get_bytes16 (fragment total offset chunk) 0 ≡ total
unfolding get_bytes16
total_field total offset chunk h =
    omega (arith, bit_or_shifted 8 (u8 (total >>> 8)) (u8 total) (omega arith))

offset_field :
    (total offset : ℕ) (chunk : List ℕ)
    → offset < 65536
    → get_bytes16 (fragment total offset chunk) 2 ≡ offset
unfolding get_bytes16
offset_field total offset chunk h =
    omega (arith, bit_or_shifted 8 (u8 (offset >>> 8)) (u8 offset) (omega arith))

-- A message of which `done` has arrived, in a block that goes on with `left`.
abbrev pub held : ℕ → List ℕ → List ℕ → FragmentState
held addr done left = record {
  buf = some (record { addr = addr; bytes = done ++ left });
  total_len = length (done ++ left);
  received_len = length done;
}

abbrev pub result_of : List ℕ → FragmentResult
result_of left = if length left == 0 then complete else more

take_all : (xs : List ℕ) → take (length xs) xs ≡ xs
take_all [] = refl
take_all (x ∷ xs) = ap (λ t. x ∷ t) (take_all xs)

-- The copy replaces the bytes after the ones that have arrived.
copied :
    (done chunk old left : List ℕ)
    → length old ≡ length chunk
    → store (done ++ (old ++ left)) (length done) (take (length chunk) chunk)
      ≡ (done ++ chunk) ++ left
copied done chunk old left same = rw (
  take_all chunk,
  store-append done (old ++ left) chunk,
  store_front (old ++ left) chunk (omega (arith, same, length-append old left)),
  ← same,
  drop-append old left,
  append_assoc done chunk left,
)

copy_chunk_next :
    (h : Heap) (addr : ℕ) (done chunk old left : List ℕ) (offset : ℕ)
    → length old ≡ length chunk
    → length (done ++ (old ++ left)) < 65536
    → copy_chunk h
        (held addr done (old ++ left))
        (record { addr = addr; bytes = done ++ (old ++ left) })
        (fragment (length (done ++ (old ++ left))) offset chunk)
        (length (done ++ (old ++ left)))
        (length done)
        (length chunk)
      ≡ (h, held addr (done ++ chunk) left, result_of left)
unfolding copy_chunk
copy_chunk_next h addr done chunk old left offset same short = ground (
  arith,
  copied done chunk old left same,
  length-append done (old ++ left),
  length-append old left,
  length-append (done ++ chunk) left,
  length-append done chunk,
)

-- From the second fragment on.
pub receive_next :
    (m : Malloc) (h : Heap) (addr max_len : ℕ) (done chunk old left : List ℕ)
    → length old ≡ length chunk
    → 0 < length done
    → 0 < length chunk
    → length (done ++ (old ++ left)) ≤ max_len
    → max_len < 65536
    → fragment_receive m h
        (held addr done (old ++ left))
        (some (fragment (length (done ++ (old ++ left))) (length done) chunk))
        (length chunk + 4)
        max_len
      ≡ (h, held addr (done ++ chunk) left, result_of left)
unfolding fragment_receive append_chunk
receive_next m h addr max_len done chunk old left same begun some_bytes fits w = ground (
  arith,
  total_field (length (done ++ (old ++ left))) (length done) chunk,
  offset_field (length (done ++ (old ++ left))) (length done) chunk,
  copy_chunk_next h addr done chunk old left (length done) same,
  length-append done (old ++ left),
  length-append old left,
)

-- The fragment that starts a message, in whatever state.
pub receive_first :
    (m : Malloc) (h : Heap) (s : FragmentState) (addr max_len : ℕ) (chunk old left : List ℕ)
    → m (length (old ++ left)) ≡ some (record { addr = addr; bytes = old ++ left })
    → length old ≡ length chunk
    → 0 < length chunk
    → length (old ++ left) ≤ max_len
    → max_len < 65536
    → fragment_receive m h s
        (some (fragment (length (old ++ left)) 0 chunk))
        (length chunk + 4)
        max_len
      ≡ (
        record (free s.buf h) { live = addr ∷ (free s.buf h).live },
        held addr chunk left,
        result_of left,
      )
unfolding fragment_receive append_chunk fresh
receive_first m h s addr max_len chunk old left got same some_bytes fits w = ground (
  arith,
  total_field (length (old ++ left)) 0 chunk,
  offset_field (length (old ++ left)) 0 chunk,
  start_message-some m h s (fragment (length (old ++ left)) 0 chunk) (length (old ++ left))
      (length chunk) (record { addr = addr; bytes = old ++ left }) got,
  copy_chunk_next (record (free s.buf h) { live = addr ∷ (free s.buf h).live }) addr [] chunk old
      left 0 same,
  length-append old left,
)
