-- ===== src/Prelude/Memory.antt =====
-- Byte buffers: a pointer is the list of the bytes from its address on, and a null pointer is `none`.
use Prim.Native.Nat.{ℕ, zero, suc, ◌≤◌, ◌<◌}
use mathlib.Core.Path.{◌≡◌, refl, ap}
use mathlib.Core.List.{List, [], ◌∷◌, ◌++◌}
use native.Mathlib.Omega.{arith}
use agcore.Prelude.Lists.{length, drop, set, get_or}

-- `memcpy(buf + i, src, n)` for a source of n bytes. What would go past the end is dropped;
-- the theorems state that nothing does.
abbrev pub store : List ℕ → ℕ → List ℕ → List ℕ
store [] i src = []
store (x ∷ xs) zero [] = x ∷ xs
store (x ∷ xs) zero (v ∷ vs) = v ∷ store xs zero vs
store (x ∷ xs) (suc i) src = x ∷ store xs i src

-- Every element is the value of a `uint8_t`.
abbrev pub AllBytes : List ℕ → Type 0
AllBytes [] = Unit {0}
AllBytes (x ∷ xs) = (x < 256) × AllBytes xs

pub length-store : (buf : List ℕ) (i : ℕ) (src : List ℕ) → length (store buf i src) ≡ length buf
length-store [] i src = refl
length-store (x ∷ xs) zero [] = refl
length-store (x ∷ xs) zero (v ∷ vs) = ap suc (length-store xs zero vs)
length-store (x ∷ xs) (suc i) src = ap suc (length-store xs i src)

-- A copy that fits replaces the first bytes and keeps the others.
pub store_front :
    (buf src : List ℕ) → length src ≤ length buf → store buf 0 src ≡ src ++ drop (length src) buf
store_front [] [] h = refl
store_front [] (v ∷ vs) h = absurd (omega arith)
store_front (x ∷ xs) [] h = refl
store_front (x ∷ xs) (v ∷ vs) h = ap (λ t. v ∷ t) (store_front xs vs (omega arith))

-- A copy at the end of a prefix leaves the prefix.
pub store-append :
    (pre buf src : List ℕ) → store (pre ++ buf) (length pre) src ≡ pre ++ store buf 0 src
store-append [] buf src = refl
store-append (x ∷ xs) buf src = ap (λ t. x ∷ t) (store-append xs buf src)

pub set-append :
    (pre : List ℕ) (x v : ℕ) (post : List ℕ)
    → set (pre ++ x ∷ post) (length pre) v ≡ pre ++ v ∷ post
set-append [] x v post = refl
set-append (p ∷ ps) x v post = ap (λ t. p ∷ t) (set-append ps x v post)

pub drop-append : (pre post : List ℕ) → drop (length pre) (pre ++ post) ≡ post
drop-append [] post = refl
drop-append (x ∷ xs) post = drop-append xs post

pub AllBytes-get_or : (xs : List ℕ) (i : ℕ) → AllBytes xs → get_or xs i 0 < 256
AllBytes-get_or [] i h = omega arith
AllBytes-get_or (x ∷ xs) zero h = h.0
AllBytes-get_or (x ∷ xs) (suc i) h = AllBytes-get_or xs i h.1

-- To prove a statement about a buffer of at least eight bytes, name them.
pub eight_bytes {ℓ} :
    (P : List ℕ → Type ℓ) (buf : List ℕ)
    → ((a b c d e f g h : ℕ) (rest : List ℕ) → P (a ∷ b ∷ c ∷ d ∷ e ∷ f ∷ g ∷ h ∷ rest))
    → 8 ≤ length buf
    → P buf
eight_bytes P [] k h = absurd (omega arith)
eight_bytes P (a ∷ []) k h = absurd (omega arith)
eight_bytes P (a ∷ b ∷ []) k h = absurd (omega arith)
eight_bytes P (a ∷ b ∷ c ∷ []) k h = absurd (omega arith)
eight_bytes P (a ∷ b ∷ c ∷ d ∷ []) k h = absurd (omega arith)
eight_bytes P (a ∷ b ∷ c ∷ d ∷ e ∷ []) k h = absurd (omega arith)
eight_bytes P (a ∷ b ∷ c ∷ d ∷ e ∷ f ∷ []) k h = absurd (omega arith)
eight_bytes P (a ∷ b ∷ c ∷ d ∷ e ∷ f ∷ g ∷ []) k h = absurd (omega arith)
eight_bytes P (a ∷ b ∷ c ∷ d ∷ e ∷ f ∷ g ∷ i ∷ rest) k h = k a b c d e f g i rest

-- The same for the first seven elements.
pub seven_bytes {ℓ} :
    (P : List ℕ → Type ℓ) (buf : List ℕ)
    → ((a b c d e f g : ℕ) (rest : List ℕ) → P (a ∷ b ∷ c ∷ d ∷ e ∷ f ∷ g ∷ rest))
    → 7 ≤ length buf
    → P buf
seven_bytes P [] k h = absurd (omega arith)
seven_bytes P (a ∷ []) k h = absurd (omega arith)
seven_bytes P (a ∷ b ∷ []) k h = absurd (omega arith)
seven_bytes P (a ∷ b ∷ c ∷ []) k h = absurd (omega arith)
seven_bytes P (a ∷ b ∷ c ∷ d ∷ []) k h = absurd (omega arith)
seven_bytes P (a ∷ b ∷ c ∷ d ∷ e ∷ []) k h = absurd (omega arith)
seven_bytes P (a ∷ b ∷ c ∷ d ∷ e ∷ f ∷ []) k h = absurd (omega arith)
seven_bytes P (a ∷ b ∷ c ∷ d ∷ e ∷ f ∷ g ∷ rest) k h = k a b c d e f g rest
