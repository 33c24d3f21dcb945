-- ===== src/Utils/Check/Sum.antt =====
-- common/utils/agcore_check.c: the additive checksums as sums, and what they detect.
use agcore.Prelude.{
  ℕ, zero, suc, ◌+◌, ◌%◌, ◌≤◌, ◌<◌, ◌≡◌, ◌≢◌, refl, ap, List, [], ◌∷◌, ◌++◌, take, drop, get_or,
  set, length, u8, u16, arith, take-length_append,
}
use agcore.Utils.Check.{checksum8_loop, checksum8_calc, checksum16_loop, checksum16_calc}

abbrev pub sum : List ℕ → ℕ
sum [] = 0
sum (x ∷ xs) = x + sum xs

sum-take_nil : (n : ℕ) → sum (take n []) ≡ 0
sum-take_nil zero = refl
sum-take_nil (suc n) = refl

checksum8_loop_lem :
    (len : ℕ) (p : List ℕ) (c : ℕ) → c < 256 → checksum8_loop len p c ≡ (c + sum (take len p)) % 256
unfolding checksum8_loop
checksum8_loop_lem zero p c h = omega arith
checksum8_loop_lem (suc len) [] c h =
    omega (arith, checksum8_loop_lem len [] (u8 (c + 0)) (omega arith), sum-take_nil len)
checksum8_loop_lem (suc len) (x ∷ xs) c h =
    omega (arith, checksum8_loop_lem len xs (u8 (c + x)) (omega arith))

-- The 8-bit checksum is the sum of the first len bytes modulo 256.
pub checksum8_sum : (p : List ℕ) (len : ℕ) → checksum8_calc p len ≡ sum (take len p) % 256
unfolding checksum8_calc
checksum8_sum p len = omega (arith, checksum8_loop_lem len p 0 (omega arith))

pub sum-append : (xs ys : List ℕ) → sum (xs ++ ys) ≡ sum xs + sum ys
sum-append [] ys = omega arith
sum-append (x ∷ xs) ys = omega (arith, sum-append xs ys)

-- The checksum of a whole list.
pub checksum8_all :
    (p : List ℕ) (len : ℕ) (post : List ℕ)
    → len ≡ length p
    → checksum8_calc (p ++ post) len ≡ sum p % 256
checksum8_all p len post e = rw (e, checksum8_sum (p ++ post) (length p), take-length_append p post)

sum-set : (p : List ℕ) (i v : ℕ) → i < length p → sum (set p i v) + get_or p i 0 ≡ sum p + v
sum-set [] i v h = absurd (omega arith)
sum-set (x ∷ xs) zero v h = omega arith
sum-set (x ∷ xs) (suc i) v h = omega (arith, sum-set xs i v (omega arith))

sum-take-set :
    (p : List ℕ) (n i v : ℕ)
    → i < n
    → n ≤ length p
    → sum (take n (set p i v)) + get_or p i 0 ≡ sum (take n p) + v
sum-take-set p zero i v h hn = absurd (omega arith)
sum-take-set [] (suc n) i v h hn = absurd (omega arith)
sum-take-set (x ∷ xs) (suc n) zero v h hn = omega arith
sum-take-set (x ∷ xs) (suc n) (suc i) v h hn =
    omega (arith, sum-take-set xs n i v (omega arith) (omega arith))

-- A change of one byte among those that are summed changes the 8-bit checksum.
pub checksum8-set_ne :
    (p : List ℕ) (len i v : ℕ)
    → i < len
    → len ≤ length p
    → get_or p i 0 < 256
    → v < 256
    → v ≢ get_or p i 0
    → checksum8_calc (set p i v) len ≢ checksum8_calc p len
checksum8-set_ne p len i v h hl hb hv ne e =
    omega
      (arith, e, checksum8_sum p len, checksum8_sum (set p i v) len, sum-take-set p len i v h hl)

take-set_beyond : (p : List ℕ) (n i v : ℕ) → n ≤ i → take n (set p i v) ≡ take n p
take-set_beyond p zero i v h = refl
take-set_beyond [] (suc n) i v h = refl
take-set_beyond (x ∷ xs) (suc n) zero v h = absurd (omega arith)
take-set_beyond (x ∷ xs) (suc n) (suc i) v h =
    ap (λ t. x ∷ t) (take-set_beyond xs n i v (omega arith))

-- A change behind the bytes that are summed does not.
pub checksum8-set_beyond :
    (p : List ℕ) (len i v : ℕ) → len ≤ i → checksum8_calc (set p i v) len ≡ checksum8_calc p len
checksum8-set_beyond p len i v h =
    rw (checksum8_sum (set p i v) len, checksum8_sum p len, take-set_beyond p len i v h)

checksum16_loop_lem :
    (rounds i : ℕ) (p : List ℕ) (c : ℕ)
    → i + rounds < 65536
    → c < 65536
    → checksum16_loop rounds i p c ≡ (c + sum (take rounds (drop i p))) % 65536
unfolding checksum16_loop
checksum16_loop_lem zero i p c hi h = omega arith
checksum16_loop_lem (suc rounds) i p c hi h =
    ground
      (arith, checksum16_loop_lem rounds (i + 1) p (u16 (c + get_or p i 0)), sum_step rounds i p)
  where
    sum_step :
        (n j : ℕ) (q : List ℕ)
        → sum (take (suc n) (drop j q)) ≡ get_or q j 0 + sum (take n (drop (j + 1) q))
    sum_step n zero [] = omega (arith, sum-take_nil n)
    sum_step n zero (x ∷ xs) = refl
    sum_step n (suc j) [] =
        let e : suc j + 1 ≡ suc (j + 1) = omega arith in rw e (omega (arith, sum-take_nil n))
    sum_step n (suc j) (x ∷ xs) =
        let e : suc j + 1 ≡ suc (j + 1) = omega arith in rw e (sum_step n j xs)

-- The 16-bit checksum of a `uint16_t` number of bytes is their sum modulo 65536.
pub checksum16_sum :
    (p : List ℕ) (len : ℕ) → len < 65536 → checksum16_calc p len ≡ sum (take len p) % 65536
unfolding checksum16_calc
checksum16_sum p len h = omega (arith, checksum16_loop_lem len 0 p 0 (omega arith) (omega arith))
