-- ===== src/Tests/Fragment.antt =====
-- pipe/data/protocol at concrete inputs: fragments.
use agcore.Prelude.{
  ℕ, zero, suc, ◌≡◌, refl, subst, List, [], ◌∷◌, Option, none, some, length, arith, if◌then◌else◌,
  ◌==◌,
}
use agcore.Platform.Heap.{Block, Heap, Malloc, IsSized, free}
use agcore.Data.Types.{FragmentState}
use agcore.Data.Fragment.{more, complete, fragment_receive}
use agcore.Data.Fragment.Step.{IsGood, Owns, fragment_receive-IsGood}
use agcore.Data.Fragment.Receive.{fragment, held}
use agcore.Data.Fragment.Reassembly.{fragments, deliver, deliver_message}

zeros : ℕ → List ℕ
zeros zero = []
zeros (suc n) = 0 ∷ zeros n

abbrev provides : Malloc
provides n = some (record { addr = 5; bytes = zeros n })

length-zeros : (n : ℕ) → length (zeros n) ≡ n
unfolding zeros
length-zeros zero = refl
length-zeros (suc n) = omega (arith, length-zeros n)

provides-IsSized : IsSized provides
provides-IsSized n b e =
    subst (λ (o : Option Block). elim o [ none ↦ n ≡ n | some k ↦ length k.bytes ≡ n ]) e
      (length-zeros n)

abbrev old_message : FragmentState
old_message = record {
  buf = some (record { addr = 3; bytes = 9 ∷ 9 ∷ [] });
  total_len = 2;
  received_len = 1;
}

-- Block 8 is another owner's.
abbrev heap : Heap
heap = record { live = 3 ∷ 8 ∷ []; faults = 0 }

abbrev pieces : List (List ℕ)
pieces = (1 ∷ 2 ∷ []) ∷ (3 ∷ []) ∷ (4 ∷ 5 ∷ []) ∷ []

deliver_message_example : deliver provides 4096 heap old_message (fragments 5 0 pieces) ≡ (
  record (free old_message.buf heap) { live = 5 ∷ (free old_message.buf heap).live },
  held 5 (1 ∷ 2 ∷ 3 ∷ 4 ∷ 5 ∷ []) [],
  more ∷ more ∷ complete ∷ [],
)
unfolding zeros
deliver_message_example =
    deliver_message provides heap old_message 5 4096 (0 ∷ 0 ∷ 0 ∷ 0 ∷ 0 ∷ []) (1 ∷ 2 ∷ [])
      ((3 ∷ []) ∷ (4 ∷ 5 ∷ []) ∷ []) (omega arith, (omega arith, (omega arith, tt))) refl refl
      (omega arith) (omega arith)

no_fault-Owns : Owns (λ a. if a == 8 then 1 else 0) heap old_message
no_fault-Owns a = ground arith

fragment_receive-IsGood_example :
    IsGood 4096 0
      (λ a. if a == 8 then 1 else 0)
      (fragment_receive provides heap old_message (some (fragment 2 1 (7 ∷ []))) 5 4096)
fragment_receive-IsGood_example =
    fragment_receive-IsGood 4096 (λ a. if a == 8 then 1 else 0) heap old_message provides
      (some (fragment 2 1 (7 ∷ []))) 5 provides-IsSized no_fault-Owns
      (refl, omega arith, omega arith, omega arith) (omega arith)
