-- ===== src/Driver/Pixel/Wire.antt =====
-- driver/pixel: what the LEDs read from the wire.
use agcore.Prelude.{
  ℕ, ◌+◌, ◌/◌, ◌%◌, ◌≤◌, ◌≡◌, refl, ap₂, List, [], ◌∷◌, ◌++◌, Bool, true, false, ◌&&◌, ltb, ◌==◌,
  if◌then◌else◌, arith,
}
use agcore.Driver.Pixel.Rmt.{Symbol}

-- A bit, or what an LED does not take for one.
pub data Pulse : Type 0 where
  bit0 bit1 no_bit : Pulse

abbrev pub to_pulse : ℕ → Pulse
to_pulse b = if b == 1 then bit1 else bit0

-- The bits of a byte, the highest first.
abbrev pub bits_of : ℕ → List Pulse
bits_of v =
    to_pulse (v / 128 % 2)
    ∷ to_pulse (v / 64 % 2)
    ∷ to_pulse (v / 32 % 2)
    ∷ to_pulse (v / 16 % 2)
    ∷ to_pulse (v / 8 % 2)
    ∷ to_pulse (v / 4 % 2)
    ∷ to_pulse (v / 2 % 2)
    ∷ to_pulse (v % 2)
    ∷ []

abbrev pub bits_of_all : List ℕ → List Pulse
bits_of_all [] = []
bits_of_all (v ∷ vs) = bits_of v ++ bits_of_all vs

-- A bit is high first and then low, and a 1 if it is high for longer than it is low.
abbrev pub read_symbol : Symbol → Pulse
read_symbol s =
    if (s.level0 == 1) && (s.level1 == 0) && ltb 0 s.duration0 && ltb 0 s.duration1
    then (if ltb s.duration1 s.duration0 then bit1 else bit0)
    else no_bit

abbrev pub read_symbols : List Symbol → List Pulse
read_symbols [] = []
read_symbols (s ∷ ss) = read_symbol s ∷ read_symbols ss

-- The wire is low for 50 microseconds at least, in ticks of 0.1 microseconds.
pub record IsReset (s : Symbol) : Type 0 where
  pub low0 : s.level0 ≡ 0
  pub low1 : s.level1 ≡ 0
  pub long : 500 ≤ s.duration0 + s.duration1

-- Four bits of SPI, high ones before low ones, as a pulse of as many ticks of 0.4 microseconds; no
-- other four bits are one pulse.
unfoldable pub read_nibble : ℕ → List Pulse
read_nibble n =
    if n == 8
    then read_symbol (record { level0 = 1; duration0 = 1; level1 = 0; duration1 = 3 }) ∷ []
    else if n == 14
    then read_symbol (record { level0 = 1; duration0 = 3; level1 = 0; duration1 = 1 }) ∷ []
    else no_bit ∷ []

unfoldable pub read_spi : List ℕ → List Pulse
read_spi [] = []
read_spi (b ∷ bs) = read_nibble (b / 16) ++ (read_nibble (b % 16) ++ read_spi bs)

abbrev same_pulse : Pulse → Pulse → Bool
same_pulse bit0 bit0 = true
same_pulse bit0 bit1 = false
same_pulse bit0 no_bit = false
same_pulse bit1 bit0 = false
same_pulse bit1 bit1 = true
same_pulse bit1 no_bit = false
same_pulse no_bit bit0 = false
same_pulse no_bit bit1 = false
same_pulse no_bit no_bit = true

same_pulse→eq : (x y : Pulse) → same_pulse x y ≡ true → x ≡ y
same_pulse→eq bit0 bit0 h = refl
same_pulse→eq bit0 bit1 h = cc
same_pulse→eq bit0 no_bit h = cc
same_pulse→eq bit1 bit0 h = cc
same_pulse→eq bit1 bit1 h = refl
same_pulse→eq bit1 no_bit h = cc
same_pulse→eq no_bit bit0 h = cc
same_pulse→eq no_bit bit1 h = cc
same_pulse→eq no_bit no_bit h = refl

-- To compare readings by evaluation.
unfoldable pub same_pulses : List Pulse → List Pulse → Bool
same_pulses [] [] = true
same_pulses [] (y ∷ ys) = false
same_pulses (x ∷ xs) [] = false
same_pulses (x ∷ xs) (y ∷ ys) = same_pulse x y && same_pulses xs ys

and_left : (a b : Bool) → (a && b) ≡ true → a ≡ true
and_left a b h = ground arith

and_right : (a b : Bool) → (a && b) ≡ true → b ≡ true
and_right a b h = ground arith

pub same_pulses→eq : (xs ys : List Pulse) → same_pulses xs ys ≡ true → xs ≡ ys
unfolding same_pulses
same_pulses→eq [] [] h = refl
same_pulses→eq [] (y ∷ ys) h = cc
same_pulses→eq (x ∷ xs) [] h = cc
same_pulses→eq (x ∷ xs) (y ∷ ys) h =
    ap₂ (λ (p : Pulse) (ps : List Pulse). p ∷ ps)
      (same_pulse→eq x y (and_left (same_pulse x y) (same_pulses xs ys) h))
      (same_pulses→eq xs ys (and_right (same_pulse x y) (same_pulses xs ys) h))
