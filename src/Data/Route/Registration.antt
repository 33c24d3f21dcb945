-- ===== src/Data/Route/Registration.antt =====
-- pipe/data/agcore_data_route.c: what registering leaves.
use agcore.Prelude.{
  ℕ, ◌+◌, ◌≡◌, ◌≢◌, ◌⊎◌, refl, List, [], ◌∷◌, ◌++◌, none, some, true, false, ◌||◌, arith, ◌==◌,
  Bool-cases, inl, inr,
}
use agcore.Platform.Heap.{Block, Heap, Malloc, Balanced, count_block, malloc_cases}
use agcore.Data.Route.{Node, is_registered, handler_register, node_size, add_node}

-- No callback has two nodes.
abbrev pub IsDistinct : List Node → Type 0
IsDistinct [] = Unit {0}
IsDistinct (n ∷ ns) = (is_registered n.cb ns ≡ false) × IsDistinct ns

-- The blocks that the nodes hold.
abbrev pub node_blocks : List Node → ℕ → ℕ
node_blocks [] a = 0
node_blocks (n ∷ ns) a = count_block a (some n.block) + node_blocks ns a

is_registered-append :
    (cb : ℕ) (ns : List Node) (n : Node)
    → is_registered cb (ns ++ (n ∷ [])) ≡ is_registered cb ns || (n.cb == cb)
is_registered-append cb [] n = ground arith
is_registered-append cb (x ∷ ns) n = ground (arith, is_registered-append cb ns n)

IsDistinct-append :
    (ns : List Node) (n : Node)
    → IsDistinct ns
    → is_registered n.cb ns ≡ false
    → IsDistinct (ns ++ (n ∷ []))
IsDistinct-append [] n v new = (refl, tt)
IsDistinct-append (x ∷ ns) n v new =
    (ground (arith, is_registered-append x.cb ns n), IsDistinct-append ns n v.1 (ground arith))

node_blocks-append :
    (ns : List Node) (n : Node) (a : ℕ)
    → node_blocks (ns ++ (n ∷ [])) a ≡ node_blocks ns a + count_block a (some n.block)
node_blocks-append [] n a = omega arith
node_blocks-append (x ∷ ns) n a = omega (arith, node_blocks-append ns n a)

-- What the nodes are after a registration.
pub record IsRegistration (h : Heap) (others : ℕ → ℕ) (ns : List Node) (cb : ℕ)
    (o : Heap × List Node) : Type 0 where
  pub distinct : IsDistinct o.1
  pub owns : Balanced o.0 (λ a. others a + node_blocks o.1 a)
  pub no_fault : o.0.faults ≡ h.faults
  pub order : (o.1 ≡ ns) ⊎ ((b : Block) × (o.1 ≡ ns ++ (record { cb = cb; block = b } ∷ [])))

-- Registering a callback keeps the nodes distinct and their order, with at most one new node, at the end;
-- each node owns its block, and nothing is lost where the allocator has none. The callback is registered
-- afterwards where it was before or the allocator had a block.
pub handler_register-IsRegistration :
    (m : Malloc) (h : Heap) (others : ℕ → ℕ) (ns : List Node) (cb : ℕ)
    → IsDistinct ns
    → Balanced h (λ a. others a + node_blocks ns a)
    → IsRegistration h others ns cb (handler_register m h ns (some cb))
      × ((is_registered cb ns ≡ true) ⊎ (m node_size ≢ none)
          → is_registered cb (handler_register m h ns (some cb)).1 ≡ true)
unfolding handler_register
handler_register-IsRegistration m h others ns cb v b = elim (Bool-cases (is_registered cb ns)) [
  | inl e ↦ rw e (record { distinct = v; owns = b; no_fault = refl; order = inl refl }, λ o. e)
  | inr e ↦ rw e (
      malloc_cases
        (λ o.
          IsRegistration h others ns cb (add_node ns cb o)
          × ((false ≡ true) ⊎ (m node_size ≢ none) → is_registered cb (add_node ns cb o).1 ≡ true))
        m node_size h
        (λ k. (
          record { distinct = v; owns = b; no_fault = refl; order = inl refl },
          λ o. absurd (ground (arith, k)),
        ))
        (λ k g.
          let n : Node = record { cb = cb; block = k } in
          (
            record {
              distinct = IsDistinct-append ns n v e;
              owns = λ a. omega (arith, b a, node_blocks-append ns n a);
              no_fault = refl;
              order = inr (k, refl);
            },
            λ o. ground (arith, is_registered-append cb ns n),
          )))
]
