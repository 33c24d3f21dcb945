-- ===== src/Data/Protocol/Header.antt =====
-- pipe/data/protocol/agcore_data_protocol.c: `agcore_data_top_find_header` finds the first header.
use agcore.Prelude.{
  ℕ, zero, suc, ◌+◌, ◌-◌, ◌≤◌, ◌<◌, ◌≡◌, ◌⊎◌, inl, inr, refl, List, some, true, false, length,
  uint16_max, arith, Bool-cases, ltb, ltb→lt,
}
use native.Mathlib.Decide.{dec_le}
use agcore.Data.Protocol.{is_header_at, find_header_loop, top_find_header}

-- No header begins before index n, from index i on.
abbrev pub NoneBetween : List ℕ → ℕ → ℕ → Type 0
NoneBetween buf i n = (j : ℕ) → i ≤ j → j < n → is_header_at buf j ≡ false

-- What a search from index i with so many rounds left returns.
abbrev Found : List ℕ → ℕ → ℕ → ℕ → Type 0
Found buf i n r =
    ((i ≤ r) × (r < n) × (is_header_at buf r ≡ true) × NoneBetween buf i r)
    ⊎ ((r ≡ uint16_max) × NoneBetween buf i n)

NoneBetween-step :
    (buf : List ℕ) (i n : ℕ)
    → is_header_at buf i ≡ false
    → NoneBetween buf (i + 1) n
    → NoneBetween buf i n
NoneBetween-step buf i n h rest j p q = elim (dec_le (suc i) j) [
  | yes lt ↦ rest j (omega arith) q
  | no ge ↦ let e : j ≡ i = omega arith in rw e h
]

Found-step :
    (buf : List ℕ) (i n r : ℕ)
    → is_header_at buf i ≡ false
    → Found buf (i + 1) n r
    → Found buf i n r
Found-step buf i n r miss (inl (lo, hi, hit, rest)) =
    inl (omega arith, hi, hit, NoneBetween-step buf i r miss rest)
Found-step buf i n r miss (inr (e, rest)) = inr (e, NoneBetween-step buf i n miss rest)

find_header_loop-Found :
    (rounds : ℕ) (buf : List ℕ) (i n : ℕ)
    → i + rounds ≡ n
    → Found buf i n (find_header_loop rounds buf i)
unfolding find_header_loop
find_header_loop-Found zero buf i n e = inr (refl, λ j p q. absurd (omega arith))
find_header_loop-Found (suc rounds) buf i n e = elim (Bool-cases (is_header_at buf i)) [
  | inl hit ↦ rw hit (inl (omega arith, omega arith, hit, λ j p q. absurd (omega arith)))
  | inr miss ↦
      rw miss
        (Found-step buf i n _ miss (find_header_loop-Found rounds buf (i + 1) n (omega arith)))
]

-- `top_find_header` in a buffer whose length is that of a `uint16_t`: either it returns the first
-- index at which the magic bytes stand within the buffer, or it returns UINT16_MAX and they stand
-- nowhere in it.
pub top_find_header_lem :
    (buf : List ℕ)
    → length buf < 65536
    → let pos = top_find_header (some buf) (length buf) in
      ((pos + 4 ≤ length buf) × (is_header_at buf pos ≡ true) × NoneBetween buf 0 pos)
      ⊎ ((pos ≡ uint16_max) × ((j : ℕ) → j + 4 ≤ length buf → is_header_at buf j ≡ false))
unfolding top_find_header
top_find_header_lem buf h = elim (Bool-cases (ltb (length buf) 4)) [
  | inl short ↦ rw short (inr (refl, λ j p. absurd (omega (arith, ltb→lt (length buf) 4 short))))
  | inr long ↦ rw long (
      within (find_header_loop (length buf - 4 + 1) buf 0) (ground (arith, long))
        (find_header_loop-Found (length buf - 4 + 1) buf 0 (length buf - 4 + 1) (omega arith)))
]
  where
    within :
        (r : ℕ)
        → 4 ≤ length buf
        → Found buf 0 (length buf - 4 + 1) r
        → ((r + 4 ≤ length buf) × (is_header_at buf r ≡ true) × NoneBetween buf 0 r)
          ⊎ ((r ≡ uint16_max) × ((j : ℕ) → j + 4 ≤ length buf → is_header_at buf j ≡ false))
    within r h4 (inl (lo, hi, hit, rest)) = inl (omega arith, hit, rest)
    within r h4 (inr (e, rest)) = inr (e, λ j p. rest j (omega arith) (omega arith))
