-- ===== src/Driver/Pixel/Rmt/Transfer.antt =====
-- driver/pixel/pixel_driver.c: what the LEDs read from a transfer by the RMT unit.
use agcore.Prelude.{
  ℕ, zero, suc, ◌+◌, ◌*◌, ◌/◌, ◌-◌, ◌<◌, ◌≤◌, ◌≡◌, refl, ap, ap₂, sym, ◌∙◌, List, [], ◌∷◌, ◌++◌,
  append_assoc, Bool, true, false, ltb, if◌then◌else◌, length, drop, get_or, set, take, replicate,
  drop-eq-cons, eq-nil_of_length, length-drop, AllBytes, arith, Bool-cases, inl, inr,
}
use agcore.Prelude.Tables.{holds_under, holds_under-elim}
use agcore.Driver.Pixel.Wire.{
  Pulse, same_pulses, same_pulses→eq, bits_of, bits_of_all, read_symbol, read_symbols, IsReset,
}
use agcore.Driver.Pixel.Rmt.{Symbol, ws2812b_reset, encode_bits, encoder_callback}

abbrev blank : Symbol
blank = record { level0 = 0; duration0 = 0; level1 = 0; duration1 = 0 }

-- A transfer: the RMT unit calls the encoder with the room that it has, and sends what it wrote, until
-- it says that it is done. The list has the room of each call.
abbrev send : List Symbol × ℕ × Bool → (ℕ → List Symbol × Bool) → List Symbol × Bool
send (symbols, n, done) next =
    if done then (take n symbols, true) else (take n symbols ++ (next n).0, (next n).1)

unfoldable pub transmit : List ℕ → ℕ → List ℕ → List Symbol × Bool
transmit bytes written [] = ([], false)
transmit bytes written (free ∷ frees) =
    send (encoder_callback bytes written free (replicate free blank))
      (λ n. transmit bytes (written + n) frees)

-- The calls with room for a byte.
abbrev pub rooms : List ℕ → ℕ
rooms [] = 0
rooms (free ∷ frees) = (if ltb free 8 then 0 else 1) + rooms frees

abbrev symbols_of : ℕ → List Symbol
symbols_of byte = take 8 (encode_bits 8 0x80 byte 0 (replicate 8 blank))

abbrev pub symbols_of_all : List ℕ → List Symbol
symbols_of_all [] = []
symbols_of_all (b ∷ bs) = symbols_of b ++ symbols_of_all bs

encode_bits_room :
    (free byte : ℕ)
    → 8 ≤ free
    → take 8 (encode_bits 8 0x80 byte 0 (replicate free blank)) ≡ symbols_of byte
unfolding encode_bits
encode_bits_room free byte room =
    let split : free ≡ suc (suc (suc (suc (suc (suc (suc (suc (free - 8)))))))) = omega arith in
    rw split refl

symbol_table : holds_under (λ b. same_pulses (read_symbols (symbols_of b)) (bits_of b)) 256 ≡ true
unfolding holds_under same_pulses encode_bits
symbol_table = refl

read_symbols-symbols_of : (b : ℕ) → b < 256 → read_symbols (symbols_of b) ≡ bits_of b
read_symbols-symbols_of b lt = same_pulses→eq _ _ (holds_under-elim b _ 256 lt symbol_table)

read_symbols-append :
    (xs ys : List Symbol) → read_symbols (xs ++ ys) ≡ read_symbols xs ++ read_symbols ys
read_symbols-append [] ys = refl
read_symbols-append (x ∷ xs) ys = ap (λ t. read_symbol x ∷ t) (read_symbols-append xs ys)

read_symbols-all : (bs : List ℕ) → AllBytes bs → read_symbols (symbols_of_all bs) ≡ bits_of_all bs
read_symbols-all [] h = refl
read_symbols-all (b ∷ bs) h =
    read_symbols-append (symbols_of b) (symbols_of_all bs)
    ∙ ap₂ (λ (x y : List Pulse). x ++ y) (read_symbols-symbols_of b h.0) (read_symbols-all bs h.1)

-- What is sent from the k-th byte on.
abbrev Sent : List ℕ → ℕ → List Symbol × Bool → Type 0
Sent bytes k o = o ≡ (symbols_of_all (drop k bytes) ++ ws2812b_reset ∷ [], true)

module _ (bytes : List ℕ) where
  -- The three answers of the encoder.
  no_room :
      (written free : ℕ) (symbols : List Symbol)
      → ltb free 8 ≡ true
      → encoder_callback bytes written free symbols ≡ (symbols, 0, false)
  unfolding encoder_callback
  no_room written free symbols e = rw e refl

  one_byte :
      (written free : ℕ) (symbols : List Symbol)
      → ltb free 8 ≡ false
      → ltb (written / 8) (length bytes) ≡ true
      → encoder_callback bytes written free symbols
        ≡ (encode_bits 8 0x80 (get_or bytes (written / 8) 0) 0 symbols, 8, false)
  unfolding encoder_callback
  one_byte written free symbols e f = rw (e, f) refl

  the_end :
      (written free : ℕ) (symbols : List Symbol)
      → ltb free 8 ≡ false
      → ltb (written / 8) (length bytes) ≡ false
      → encoder_callback bytes written free symbols ≡ (set symbols 0 ws2812b_reset, 1, true)
  unfolding encoder_callback
  the_end written free symbols e f = rw (e, f) refl

  take_reset :
      (free : ℕ)
      → 8 ≤ free
      → take 1 (set (replicate free blank) 0 ws2812b_reset) ≡ ws2812b_reset ∷ []
  take_reset zero h = absurd (omega arith)
  take_reset (suc free) h = refl

  transmit-Sent :
      (frees : List ℕ) (k : ℕ)
      → k ≤ length bytes
      → length bytes < k + rooms frees
      → Sent bytes k (transmit bytes (k * 8) frees)
  unfolding transmit
  transmit-Sent [] k fits room = absurd (omega arith)
  transmit-Sent (free ∷ frees) k fits room =
      let next : ℕ → List Symbol × Bool = λ n. transmit bytes (k * 8 + n) frees in
      let symbols = replicate free blank in
      let e0 : k * 8 + 0 ≡ k * 8 = omega arith in
      let e8 : k * 8 + 8 ≡ suc k * 8 = omega arith in
      let at : k * 8 / 8 ≡ k = omega arith in
      elim (Bool-cases (ltb free 8)) [
        | inl small ↦
            ap (λ (o : List Symbol × ℕ × Bool). send o next) (no_room (k * 8) free symbols small)
            ∙ ap (λ (n : ℕ). transmit bytes n frees) e0
            ∙ transmit-Sent frees k fits (ground (arith, small, room))
        | inr large ↦ elim (Bool-cases (ltb (k * 8 / 8) (length bytes))) [
          | inl more ↦
              let inside : k < length bytes = ground (arith, more, at) in
              let rest = transmit-Sent frees (suc k) (omega arith) (ground (arith, large, room)) in
              ap (λ (o : List Symbol × ℕ × Bool). send o next)
                (one_byte (k * 8) free symbols large more)
              ∙ ap₂ (λ (x : List Symbol) (r : List Symbol × Bool). (x ++ r.0, r.1))
                  (encode_bits_room free (get_or bytes (k * 8 / 8) 0) (ground (arith, large)))
                  (ap (λ (n : ℕ). transmit bytes n frees) e8 ∙ rest)
              ∙ rw (at, drop-eq-cons k bytes 0 inside)
                  (ap (λ (x : List Symbol). (x, true))
                    (sym (
                      append_assoc (symbols_of (get_or bytes k 0))
                        (symbols_of_all (drop (suc k) bytes)) (ws2812b_reset ∷ []))))
          | inr end ↦
              let whole : k ≡ length bytes = ground (arith, end, at, fits) in
              ap (λ (o : List Symbol × ℕ × Bool). send o next)
                (the_end (k * 8) free symbols large end)
              ∙ ap (λ (x : List Symbol). (x, true)) (take_reset free (ground (arith, large)))
              ∙ rw (eq-nil_of_length (drop k bytes) (omega (arith, length-drop k bytes))) refl
        ]
      ]

-- A transfer of bytes in which more calls than there are bytes have room for eight symbols comes to its
-- end, whatever the other calls are: it sends symbols that are read as the bits of the bytes, the
-- highest bit of each first, and then one that is low for the 50 microseconds of a reset.
pub transmit_done :
    (bytes frees : List ℕ)
    → AllBytes bytes
    → length bytes < rooms frees
    → (symbols : List Symbol) × (reset : Symbol) × (transmit bytes 0 frees
        ≡ (symbols ++ reset ∷ [], true))
      × (read_symbols symbols ≡ bits_of_all bytes)
      × IsReset reset
transmit_done bytes frees h room = (
  symbols_of_all bytes,
  ws2812b_reset,
  transmit-Sent bytes frees 0 (omega arith) (omega arith),
  read_symbols-all bytes h,
  record { low0 = refl; low1 = refl; long = omega arith },
)
