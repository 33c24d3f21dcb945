-- ===== src/Platform/Heap.antt =====
-- platform/espidf/agcore_port_espidf.h: agcore_malloc and agcore_free. The allocator belongs to
-- ESP-IDF: what it answers is a parameter, and the heap records which blocks are live.
use agcore.Prelude.{
  ℕ, suc, ◌≡◌, List, [], ◌∷◌, Option, none, some, Bool, true, false, ◌||◌, ◌==◌, if◌then◌else◌,
  length, ◌+◌, ◌<◌, refl, sym, subst, arith, Option-cases, inl, inr,
}

-- A block: its address, and the bytes in it.
pub record Block : Type 0 where
  pub addr : ℕ
  pub bytes : List ℕ

-- The addresses of the live blocks, and how often a block was freed that was not live.
pub record Heap : Type 0 where
  pub live : List ℕ
  pub faults : ℕ

-- What one call of the allocator answers to a size.
abbrev pub Malloc : Type 0
Malloc = ℕ → Option Block

abbrev pub is_live : ℕ → List ℕ → Bool
is_live a [] = false
is_live a (x ∷ xs) = (x == a) || is_live a xs

abbrev pub remove : ℕ → List ℕ → List ℕ
remove a [] = []
remove a (x ∷ xs) = if x == a then xs else x ∷ remove a xs

-- The documented behaviour of the allocator: a block has the size that was asked for.
abbrev pub IsSized : Malloc → Type 0
IsSized m = (n : ℕ) (b : Block) → m n ≡ some b → length b.bytes ≡ n

unfoldable pub malloc : Malloc → ℕ → Heap → Heap × Option Block
malloc m size h = elim (m size) [
  | none ↦ (h, none)
  | some b ↦ (record h { live = b.addr ∷ h.live }, some b)
]

-- Freeing a null pointer does nothing.
unfoldable pub free : Option Block → Heap → Heap
free none h = h
free (some b) h =
    if is_live b.addr h.live
    then record h { live = remove b.addr h.live }
    else record h { faults = suc h.faults }

-- How often an address is live, and whether an owner's pointer holds it.
abbrev pub count : ℕ → List ℕ → ℕ
count a [] = 0
count a (y ∷ ys) = (if y == a then 1 else 0) + count a ys

abbrev pub count_block : ℕ → Option Block → ℕ
count_block a none = 0
count_block a (some b) = if b.addr == a then 1 else 0

count-remove :
    (a c : ℕ) (xs : List ℕ)
    → is_live a xs ≡ true
    → count c xs ≡ count c (remove a xs) + (if a == c then 1 else 0)
count-remove a c [] h = cc
count-remove a c (x ∷ xs) h = ground (arith, count-remove a c xs)

is_live-count : (a : ℕ) (xs : List ℕ) → 0 < count a xs → is_live a xs ≡ true
is_live-count a [] h = absurd (omega arith)
is_live-count a (x ∷ xs) h = ground (arith, is_live-count a xs)

-- Each address is live as often as the owners say.
abbrev pub Balanced : Heap → (ℕ → ℕ) → Type 0
Balanced h owned = (a : ℕ) → count a h.live ≡ owned a

-- Freeing an owner's block takes it from the live ones, and is no fault.
pub free-Balanced :
    (o : Option Block) (h : Heap) (others : ℕ → ℕ)
    → Balanced h (λ a. others a + count_block a o)
    → Balanced (free o h) others × ((free o h).faults ≡ h.faults)
unfolding free
free-Balanced none h others b = (λ a. omega (arith, b a), refl)
free-Balanced (some k) h others b =
    let l : is_live k.addr h.live ≡ true = is_live-count k.addr h.live (ground (arith, b k.addr)) in
    rw l (λ a. ground (arith, b a, count-remove k.addr a h.live l), refl)

-- What the allocator hands out has an owner from then on.
pub malloc-Balanced :
    (m : Malloc) (n : ℕ) (h : Heap) (others : ℕ → ℕ)
    → Balanced h others
    → let (h', o) = malloc m n h in
      Balanced h' (λ a. others a + count_block a o) × (h'.faults ≡ h.faults) × (o ≡ m n)
unfolding malloc
malloc-Balanced m n h others b = elim (Option-cases (m n)) [
  | inl e ↦ rw (e, malloc) (λ a. omega (arith, b a), refl, refl)
  | inr (k, e) ↦ rw (e, malloc) (λ a. omega (arith, b a), refl, refl)
]

pub malloc-none : (m : Malloc) (n : ℕ) (h : Heap) → m n ≡ none → malloc m n h ≡ (h, none)
unfolding malloc
malloc-none m n h e = rw (e, malloc)

pub malloc-some :
    (m : Malloc) (n : ℕ) (h : Heap) (b : Block)
    → m n ≡ some b
    → malloc m n h ≡ (record h { live = b.addr ∷ h.live }, some b)
unfolding malloc
malloc-some m n h b e = rw (e, malloc)

-- To prove a statement about an allocation, prove it of both answers.
pub malloc_cases {ℓ} :
    (P : Heap × Option Block → Type ℓ) (m : Malloc) (n : ℕ) (h : Heap)
    → (m n ≡ none → P (h, none))
    → ((b : Block) → m n ≡ some b → P (record h { live = b.addr ∷ h.live }, some b))
    → P (malloc m n h)
malloc_cases P m n h failed got = elim (Option-cases (m n)) [
  | inl e ↦ subst P (sym (malloc-none m n h e)) (failed e)
  | inr (b, e) ↦ subst P (sym (malloc-some m n h b e)) (got b e)
]

-- A block that was just handed out is freed without a trace.
pub free_fresh : (b : Block) (h : Heap) → free (some b) (record h { live = b.addr ∷ h.live }) ≡ h
unfolding free
free_fresh b h = ground arith
