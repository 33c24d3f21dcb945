-- ===== src/Data/Fragment/Reassembly.antt =====
-- pipe/data/protocol/agcore_data_protocol.c: the fragments of a message, delivered in order, are put
-- together to the message.
use agcore.Prelude.{
  ℕ, ◌+◌, ◌≤◌, ◌<◌, ◌≡◌, refl, ap, ap₂, sym, ◌∙◌, subst, List, [], ◌∷◌, ◌++◌, some, length,
  length-append, length-drop, length-take_le, take, drop, take-append-drop, append_assoc,
  append-nil, arith,
}
use agcore.Platform.Heap.{Heap, Malloc, free}
use agcore.Data.Types.{FragmentState}
use agcore.Data.Fragment.{FragmentResult, more, complete, fragment_receive}
use agcore.Data.Fragment.Receive.{fragment, held, result_of, receive_next, receive_first}

-- The fragments of a message that is cut into pieces, from an offset on.
unfoldable pub fragments : ℕ → ℕ → List (List ℕ) → List (List ℕ)
fragments total offset [] = []
fragments total offset (c ∷ cs) = fragment total offset c ∷ fragments total (offset + length c) cs

abbrev pub joined : List (List ℕ) → List ℕ
joined [] = []
joined (c ∷ cs) = c ++ joined cs

-- No piece is empty.
abbrev pub AllFilled : List (List ℕ) → Type 0
AllFilled [] = Unit {0}
AllFilled (c ∷ cs) = (0 < length c) × AllFilled cs

-- The receiver's calls in order, with the results.
unfoldable pub deliver :
    Malloc → ℕ → Heap → FragmentState → List (List ℕ) → Heap × FragmentState × List FragmentResult
deliver m max_len h s [] = (h, s, [])
deliver m max_len h s (f ∷ fs) =
    let (h1, s1, r) = fragment_receive m h s (some f) (length f) max_len in
    let (h2, s2, rs) = deliver m max_len h1 s1 fs in (h2, s2, r ∷ rs)

-- MORE for each piece but the last, and COMPLETE for that.
abbrev pub results : List ℕ → List (List ℕ) → List FragmentResult
results c [] = complete ∷ []
results c (d ∷ ds) = more ∷ results d ds

abbrev then_result :
    FragmentResult
    → Heap × FragmentState × List FragmentResult
    → Heap × FragmentState × List FragmentResult
then_result r o = (o.0, o.1, r ∷ o.2)

deliver_step :
    (m : Malloc) (max_len : ℕ) (h h1 : Heap) (s s1 : FragmentState) (r : FragmentResult)
    (f : List ℕ) (fs : List (List ℕ)) (n : ℕ)
    → length f ≡ n
    → fragment_receive m h s (some f) n max_len ≡ (h1, s1, r)
    → deliver m max_len h s (f ∷ fs) ≡ then_result r (deliver m max_len h1 s1 fs)
unfolding deliver
deliver_step m max_len h h1 s s1 r f fs n e g = rw e (
    ap
      (λ (o : Heap × FragmentState × FragmentResult).
        then_result o.2 (deliver m max_len o.0 o.1 fs))
      g)

-- One of them, and then the others.
rest_step :
    (m : Malloc) (h : Heap) (addr max_len : ℕ) (done old left c : List ℕ) (cs : List (List ℕ))
    → length old ≡ length c
    → 0 < length done
    → 0 < length c
    → length (done ++ (old ++ left)) ≤ max_len
    → max_len < 65536
    → deliver m max_len h
        (held addr done (old ++ left))
        (fragments (length (done ++ (old ++ left))) (length done) (c ∷ cs))
      ≡ then_result (result_of left) (
          deliver m max_len h
            (held addr (done ++ c) left)
            (fragments (length ((done ++ c) ++ left)) (length (done ++ c)) cs))
unfolding fragments
rest_step m h addr max_len done old left c cs same begun filled fits w =
    let total : length ((done ++ c) ++ left) ≡ length (done ++ (old ++ left)) = omega (
      arith,
      same,
      length-append (done ++ c) left,
      length-append done c,
      length-append done (old ++ left),
      length-append old left,
    ) in
    deliver_step m max_len h h (held addr done (old ++ left)) (held addr (done ++ c) left)
      (result_of left) (fragment (length (done ++ (old ++ left))) (length done) c)
      (fragments (length (done ++ (old ++ left))) (length done + length c) cs) (length c + 4)
      (omega arith) (receive_next m h addr max_len done c old left same begun filled fits w)
    ∙ ap₂
        (λ (t o : ℕ).
          then_result (result_of left)
            (deliver m max_len h (held addr (done ++ c) left) (fragments t o cs)))
        (sym total) (sym (length-append done c))

rest_end :
    (m : Malloc) (h : Heap) (addr max_len : ℕ) (done left : List ℕ) (t o : ℕ)
    → length left ≡ 0
    → then_result (result_of left) (deliver m max_len h (held addr done left) (fragments t o []))
      ≡ (h, held addr done [], complete ∷ [])
unfolding deliver fragments
rest_end m h addr max_len done [] t o e = refl
rest_end m h addr max_len done (x ∷ xs) t o e = absurd (omega arith)

-- The first step, whatever stands in the block.
rest_any :
    (m : Malloc) (h : Heap) (addr max_len : ℕ) (done old c : List ℕ) (cs : List (List ℕ))
    → length c ≤ length old
    → 0 < length done
    → 0 < length c
    → length (done ++ old) ≤ max_len
    → max_len < 65536
    → let left = drop (length c) old in
      deliver m max_len h
        (held addr done old)
        (fragments (length (done ++ old)) (length done) (c ∷ cs))
      ≡ then_result (result_of left) (
          deliver m max_len h
            (held addr (done ++ c) left)
            (fragments (length ((done ++ c) ++ left)) (length (done ++ c)) cs))
rest_any m h addr max_len done old c cs room begun filled fits w =
    let left = drop (length c) old in
    let e = take-append-drop (length c) old in
    subst
      (λ (o : List ℕ).
        deliver m max_len h (held addr done o)
          (fragments (length (done ++ o)) (length done) (c ∷ cs))
        ≡ then_result (result_of left) (
            deliver m max_len h (held addr (done ++ c) left)
              (fragments (length ((done ++ c) ++ left)) (length (done ++ c)) cs)))
      e
      (rest_step m h addr max_len done (take (length c) old) left c cs
        (length-take_le (length c) old room) begun filled (rw e fits) w)

result_of-more : (left : List ℕ) → 0 < length left → result_of left ≡ more
result_of-more left h = ground arith

-- All fragments but the first, into a block that has room for them.
deliver_rest :
    (m : Malloc) (h : Heap) (addr max_len : ℕ) (done old : List ℕ) (c : List ℕ) (cs : List (List ℕ))
    → AllFilled (c ∷ cs)
    → 0 < length done
    → length old ≡ length (joined (c ∷ cs))
    → length (done ++ old) ≤ max_len
    → max_len < 65536
    → deliver m max_len h
        (held addr done old)
        (fragments (length (done ++ old)) (length done) (c ∷ cs))
      ≡ (h, held addr (done ++ joined (c ∷ cs)) [], results c cs)
deliver_rest m h addr max_len done old c [] filled begun same fits w =
    let size : length old ≡ length c = omega (arith, same, length-append c []) in
    rest_any m h addr max_len done old c [] (omega arith) begun filled.0 fits w
    ∙ rest_end m h addr max_len (done ++ c) (drop (length c) old) _ _
        (omega (arith, length-drop (length c) old))
    ∙ ap (λ (t : List ℕ). (h, held addr (done ++ t) [], complete ∷ [])) (sym (append-nil c))
deliver_rest m h addr max_len done old c (d ∷ ds) filled begun same fits w =
    let left = drop (length c) old in
    let size : length old ≡ length c + length (joined (d ∷ ds)) =
      omega (arith, same, length-append c (joined (d ∷ ds))) in
    let rest : length left ≡ length (joined (d ∷ ds)) = omega (arith, length-drop (length c) old) in
    rest_any m h addr max_len done old c (d ∷ ds) (omega arith) begun filled.0 fits w
    ∙ ap₂ (λ r o. then_result r o)
        (result_of-more left (omega (arith, filled.1.0, length-append d (joined ds))))
        (deliver_rest m h addr max_len (done ++ c) left d ds filled.1
          (omega (arith, length-append done c)) rest
          (omega
            (arith, length-append (done ++ c) left, length-append done c, length-append done old))
          w)
    ∙ ap (λ (t : List ℕ). (h, held addr t [], more ∷ results d ds))
        (append_assoc done c (joined (d ∷ ds)))

-- Where the allocator has a block of the message's size, the fragments of a message that is cut into
-- pieces of which none is empty, delivered in order in whatever state, are answered by MORE, the last
-- one by COMPLETE, and leave that block with the message in it, all bytes received; the block of the
-- former state is freed.
pub deliver_message :
    (m : Malloc) (h : Heap) (s : FragmentState) (addr max_len : ℕ) (bytes c : List ℕ)
    (cs : List (List ℕ))
    → AllFilled (c ∷ cs)
    → length bytes ≡ length (joined (c ∷ cs))
    → m (length bytes) ≡ some (record { addr = addr; bytes = bytes })
    → length bytes ≤ max_len
    → max_len < 65536
    → deliver m max_len h s (fragments (length bytes) 0 (c ∷ cs)) ≡ (
      record (free s.buf h) { live = addr ∷ (free s.buf h).live },
      held addr (joined (c ∷ cs)) [],
      results c cs,
    )
unfolding fragments
deliver_message m h s addr max_len bytes c cs filled same got fits w = first ∙ others cs filled same
  where
    left : List ℕ
    left = drop (length c) bytes

    heap : Heap
    heap = record (free s.buf h) { live = addr ∷ (free s.buf h).live }

    receive :
        fragment_receive m h s (some (fragment (length bytes) 0 c)) (length c + 4) max_len
        ≡ (heap, held addr c left, result_of left)
    receive =
        subst
          (λ (o : List ℕ).
            m (length o) ≡ some (record { addr = addr; bytes = o })
            → length o ≤ max_len
            → fragment_receive m h s (some (fragment (length o) 0 c)) (length c + 4) max_len
              ≡ (heap, held addr c left, result_of left))
          (take-append-drop (length c) bytes)
          (λ g f.
            receive_first m h s addr max_len c (take (length c) bytes) left g
              (length-take_le (length c) bytes (omega (arith, same, length-append c (joined cs))))
              filled.0 f w)
          got fits

    first :
        deliver m max_len h s (fragments (length bytes) 0 (c ∷ cs))
        ≡ then_result (result_of left) (
            deliver m max_len heap
              (held addr c left)
              (fragments (length (c ++ left)) (length c) cs))
    first =
        deliver_step m max_len h heap s (held addr c left) (result_of left)
          (fragment (length bytes) 0 c) (fragments (length bytes) (0 + length c) cs) (length c + 4)
          (omega arith) receive
        ∙ ap₂
            (λ (t o : ℕ).
              then_result (result_of left)
                (deliver m max_len heap (held addr c left) (fragments t o cs)))
            (omega (
              arith,
              same,
              length-append c left,
              length-drop (length c) bytes,
              length-append c (joined cs),
            ))
            (omega arith)

    others :
        (ds : List (List ℕ))
        → AllFilled (c ∷ ds)
        → length bytes ≡ length (joined (c ∷ ds))
        → then_result (result_of left) (
            deliver m max_len heap
              (held addr c left)
              (fragments (length (c ++ left)) (length c) ds))
          ≡ (heap, held addr (joined (c ∷ ds)) [], results c ds)
    others [] f e =
        rest_end m heap addr max_len c left (length (c ++ left)) (length c)
          (omega (arith, e, length-append c [], length-drop (length c) bytes))
        ∙ ap (λ (t : List ℕ). (heap, held addr t [], complete ∷ [])) (sym (append-nil c))
    others (d ∷ ds) f e =
        let rest : length left ≡ length (joined (d ∷ ds)) =
          omega (arith, e, length-append c (joined (d ∷ ds)), length-drop (length c) bytes) in
        ap₂ (λ r o. then_result r o)
          (result_of-more left (omega (arith, f.1.0, length-append d (joined ds))))
          (deliver_rest m heap addr max_len c left d ds f.1 f.0 rest
            (omega (arith, length-append c left, e, length-append c (joined (d ∷ ds)))) w)
