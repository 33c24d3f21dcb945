-- ===== src/Data/Fragment/Step.antt =====
-- pipe/data/protocol/agcore_data_protocol.c: one call of `agcore_fragment_decode`, with the ownership
-- of the block.
use agcore.Prelude.{
  ℕ, ◌+◌, ◌-◌, ◌≤◌, ◌<◌, ◌≡◌, ◌≢◌, inl, inr, refl, ap, ◌∙◌, List, ◌∷◌, Option, none, some, Bool,
  length, take, drop, length-store, arith, Option-cases, Bool-cases, ltb, leb, not, ◌||◌, ◌==◌,
  if◌then◌else◌,
}
use agcore.Platform.Heap.{
  Block, Heap, Malloc, IsSized, Balanced, count_block, malloc-none, malloc-some, free,
  free-Balanced,
}
use agcore.Utils.Bytes.{get_bytes16}
use agcore.Data.Types.{FragmentState}
use agcore.Data.Fragment.{
  FragmentResult, error, more, complete, no_memory, no_fragment, clear, reject, copy_chunk,
  append_chunk, start_message, fragment_receive,
}

-- A block has the size of the message, and the bytes received fit it; without one the state is zeroed.
abbrev pub IsShaped : ℕ → FragmentState → Type 0
IsShaped max_len s = elim s.buf [
  | none ↦ (s.total_len ≡ 0) × (s.received_len ≡ 0)
  | some b ↦
      (length b.bytes ≡ s.total_len)
      × (s.received_len ≤ s.total_len)
      × (0 < s.total_len)
      × (s.total_len ≤ max_len)
]

-- What a result says of the state.
abbrev pub Says : FragmentResult → FragmentState → Type 0
Says error s = s ≡ no_fragment
Says no_memory s = s ≡ no_fragment
Says more s = (s.received_len < s.total_len) × (s.buf ≢ none)
Says complete s = (s.received_len ≡ s.total_len) × (s.buf ≢ none)

-- The state holds the only block that is not another owner's.
abbrev pub Owns : (ℕ → ℕ) → Heap → FragmentState → Type 0
Owns others h s = Balanced h (λ a. others a + count_block a s.buf)

-- An outcome of a call from a heap with so many faults.
pub record IsGood (max_len faults : ℕ) (others : ℕ → ℕ) (o : Heap × FragmentState × FragmentResult)
    : Type 0 where
  pub owns : Owns others o.0 o.1
  pub shaped : IsShaped max_len o.1
  pub says : Says o.2 o.1
  pub no_fault : o.0.faults ≡ faults

pub IsGood-faults :
    {max_len : ℕ} {others : ℕ → ℕ} {o : Heap × FragmentState × FragmentResult} {n k : ℕ}
    → n ≡ k
    → IsGood max_len n others o
    → IsGood max_len k others o
IsGood-faults e g = record {
  owns = g.owns;
  shaped = g.shaped;
  says = g.says;
  no_fault = g.no_fault ∙ e;
}

module _ (max_len : ℕ) (others : ℕ → ℕ) (h : Heap) (s : FragmentState) where
  reject-IsGood : Owns others h s → IsGood max_len h.faults others (reject h s)
  unfolding clear
  reject-IsGood b =
      let f = free-Balanced s.buf h others b in
      record {
        owns = λ a. omega (arith, f.0 a);
        shaped = (refl, refl);
        says = refl;
        no_fault = f.1;
      }

  copy_chunk-IsGood :
      (k : Block) (p : List ℕ) (total offset chunk : ℕ)
      → s.buf ≡ some k
      → Owns others h s
      → IsShaped max_len s
      → s.total_len ≡ total
      → s.received_len ≡ offset
      → offset + chunk ≤ total
      → max_len < 65536
      → IsGood max_len h.faults others (copy_chunk h s k p total offset chunk)
  unfolding copy_chunk
  copy_chunk-IsGood k p total offset chunk e b v same next fits w = record {
    owns = λ a. ground (arith, b a);
    shaped = ground (arith, length-store k.bytes offset (take chunk (drop 4 p)));
    says = ground arith;
    no_fault = refl;
  }

  append_chunk-IsGood :
      (p : List ℕ) (total offset chunk : ℕ)
      → Owns others h s
      → IsShaped max_len s
      → offset + chunk ≤ total
      → max_len < 65536
      → IsGood max_len h.faults others (append_chunk h s p total offset chunk)
  unfolding append_chunk
  append_chunk-IsGood p total offset chunk b v fits w = go s.buf refl
    where
      test : Bool
      test = not (s.total_len == total) || not (s.received_len == offset)

      go :
          (o : Option Block)
          → s.buf ≡ o
          → IsGood max_len h.faults others (elim o [
            | none ↦ reject h s
            | some k ↦ if test then reject h s else copy_chunk h s k p total offset chunk
          ])
      go none e = reject-IsGood b
      go (some k) e = elim (Bool-cases test) [
        | inl bad ↦ rw bad (reject-IsGood b)
        | inr good ↦ rw good (
            copy_chunk-IsGood k p total offset chunk e b v (ground (arith, good))
              (ground (arith, good)) fits w)
      ]

-- A state that has just got its block.
unfoldable pub fresh : Block → ℕ → FragmentState
fresh k total = record no_fragment { buf = some k; total_len = total }

-- What `start_message` does with the allocator's answer.
abbrev started : ℕ → List ℕ → ℕ → Heap × Option Block → Heap × FragmentState × FragmentResult
started total p chunk r = elim r.1 [
  | none ↦ (r.0, no_fragment, no_memory)
  | some b ↦
      append_chunk r.0 (record no_fragment { buf = some b; total_len = total }) p total 0 chunk
]

pub start_message-none :
    (m : Malloc) (h : Heap) (s : FragmentState) (p : List ℕ) (total chunk : ℕ)
    → m total ≡ none
    → start_message m h s p total chunk ≡ (free s.buf h, no_fragment, no_memory)
unfolding start_message clear
start_message-none m h s p total chunk e =
    ap (started total p chunk) (malloc-none m total (free s.buf h) e)

pub start_message-some :
    (m : Malloc) (h : Heap) (s : FragmentState) (p : List ℕ) (total chunk : ℕ) (k : Block)
    → m total ≡ some k
    → start_message m h s p total chunk
      ≡ append_chunk
          (record (free s.buf h) { live = k.addr ∷ (free s.buf h).live })
          (fresh k total)
          p
          total
          0
          chunk
unfolding start_message clear fresh
start_message-some m h s p total chunk k e =
    ap (started total p chunk) (malloc-some m total (free s.buf h) k e)

start_message-IsGood :
    (max_len : ℕ) (others : ℕ → ℕ) (h : Heap) (s : FragmentState) (m : Malloc) (p : List ℕ)
    (total chunk : ℕ)
    → IsSized m
    → Owns others h s
    → 0 < total
    → total ≤ max_len
    → chunk ≤ total
    → max_len < 65536
    → IsGood max_len h.faults others (start_message m h s p total chunk)
unfolding fresh
start_message-IsGood max_len others h s m p total chunk sized b pos fits room w =
    elim (Option-cases (m total)) [
      | inl e ↦ rw (start_message-none m h s p total chunk e) (record {
        owns = λ a. omega (arith, f.0 a);
        shaped = (refl, refl);
        says = refl;
        no_fault = f.1;
      })
      | inr (k, e) ↦ rw (start_message-some m h s p total chunk k e) (
          IsGood-faults f.1 (
            append_chunk-IsGood max_len others
              (record (free s.buf h) { live = k.addr ∷ (free s.buf h).live }) (fresh k total) p
              total 0 chunk (λ a. omega (arith, f.0 a)) (sized total k e, omega arith, pos, fits)
              (omega arith) w))
    ]
  where
    f : Balanced (free s.buf h) others × ((free s.buf h).faults ≡ h.faults)
    f = free-Balanced s.buf h others b

-- Any fragment at all, also a malformed one, leaves a state that holds its block alone, of the size of
-- the message and filled up to the bytes received, or none and is zeroed; no block is freed twice or
-- lost, whatever other blocks are live. After an error or a lack of memory the state is zeroed, after
-- MORE bytes are missing, and after COMPLETE the block is there and none is missing.
pub fragment_receive-IsGood :
    (max_len : ℕ) (others : ℕ → ℕ) (h : Heap) (s : FragmentState) (m : Malloc) (p : Option (List ℕ))
    (len : ℕ)
    → IsSized m
    → Owns others h s
    → IsShaped max_len s
    → max_len < 65536
    → IsGood max_len h.faults others (fragment_receive m h s p len max_len)
unfolding fragment_receive
fragment_receive-IsGood max_len others h s m none len sized b v w =
    reject-IsGood max_len others h s b
fragment_receive-IsGood max_len others h s m (some p) len sized b v w = elim (Bool-cases short) [
  | inl t ↦ rw t bad
  | inr t ↦ rw t (elim (Bool-cases wrong) [
    | inl u ↦ rw u bad
    | inr u ↦ rw u (elim (Bool-cases (offset == 0)) [
      | inl z ↦ rw z (
          start_message-IsGood max_len others h s m p total chunk sized b (ground (arith, u))
            (ground (arith, u)) (ground (arith, u)) w)
      | inr z ↦
          rw z
            (append_chunk-IsGood max_len others h s p total offset chunk b v (ground (arith, u)) w)
    ])
  ])
]
  where
    total : ℕ
    total = get_bytes16 p 0

    offset : ℕ
    offset = get_bytes16 p 2

    chunk : ℕ
    chunk = len - 4

    short : Bool
    short = leb len 4

    wrong : Bool
    wrong = (total == 0) || ltb max_len total || leb total offset || ltb (total - offset) chunk

    bad : IsGood max_len h.faults others (reject h s)
    bad = reject-IsGood max_len others h s b
