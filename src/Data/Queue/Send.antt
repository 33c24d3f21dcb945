-- ===== src/Data/Queue/Send.antt =====
-- pipe/data/agcore_data.c: `agcore_data_send`.
use agcore.Prelude.{
  ℕ, ◌+◌, ◌%◌, ◌≡◌, refl, ap, ◌∙◌, List, [], ◌∷◌, Option, none, some, Bool, true, false, length,
  get_elem?, arith, ◌==◌, ◌||◌, ◌&&◌, ltb, if_cases, Bool-cases, Option-cases, inl, inr, drop,
  append-nil, eq-nil_of_length, length-drop, u16,
}
use agcore.Platform.{EspErr, invalid_state}
use agcore.Platform.Heap.{
  Block, Heap, Malloc, Balanced, malloc, malloc_cases, malloc-some, free, free_fresh, free-Balanced,
}
use agcore.Data.Types.{
  Data, LinkContext, Links, is_bad_link, protocol_state_get, protocol_state_put,
}
use agcore.Data.Protocol.{is_null, rawdata_encode}
use agcore.Data.Protocol.Frame.{frame, IsData, payload_of, rawdata_encode_writes}
use agcore.Data.Queue.{DataState, Transport, submit, send_locked, finish_send, data_send}

payload_there : (d : Data) → IsData d → ltb 0 d.payload_len && is_null d.payload ≡ false
unfolding payload_of
payload_there d v = ground (arith, v.sized)

encoded :
    (links : Links) (d : Data) (c : LinkContext) (buf : List ℕ)
    → get_elem? links d.link ≡ some c
    → is_bad_link links d.link ≡ false
    → IsData d
    → length buf ≡ d.payload_len + 9
    → rawdata_encode links (some d) (some buf) ≡ (
      protocol_state_put links d.link (record c.protocol { tx_sn = (c.protocol.tx_sn + 1) % 256 }),
      some (frame c.protocol.tx_sn (payload_of d)),
      d.payload_len + 9,
    )
unfolding protocol_state_get
encoded links d c buf at good v size =
    let left : drop (d.payload_len + 9) buf ≡ [] =
      eq-nil_of_length _ (omega (arith, size, length-drop (d.payload_len + 9) buf)) in
    rawdata_encode_writes links d buf c.protocol (rw (good, at) refl) v (omega (arith, size))
    ∙ rw (left, append-nil (frame c.protocol.tx_sn (payload_of d))) refl

module _ {Q W : Type 0} (m : Malloc) (transport : Transport W) where
  submit-heap :
      (s : DataState Q W) (cb : ℕ) (o : Links × Option (List ℕ) × ℕ)
      → (submit m transport s cb o).0.heap ≡ s.heap
  unfolding submit
  submit-heap s cb (l, none, n) = refl
  submit-heap s cb (l, some bytes, n) = elim (Bool-cases (n == 0)) [
    | inl e ↦ rw e refl
    | inr e ↦ rw e refl
  ]

  send_locked-heap :
      (s : DataState Q W) (c : LinkContext) (d : Data) (buf : List ℕ)
      → (send_locked m transport s c d buf).0.heap ≡ s.heap
  unfolding send_locked
  send_locked-heap s c d buf = elim (Option-cases c.send_cb) [
    | inl e ↦ rw e refl
    | inr (cb, e) ↦ rw e (submit-heap s cb (rawdata_encode s.links (some d) (some buf)))
  ]

  -- No owner but the caller's frame: the blocks that were live are live, none is freed twice.
  abbrev Kept : (ℕ → ℕ) → ℕ → DataState Q W × EspErr → Type 0
  Kept others faults o = Balanced o.0.heap others × (o.0.heap.faults ≡ faults)

  finish_send-Kept :
      (s : DataState Q W) (c : LinkContext) (d : Data) (others : ℕ → ℕ) (n : ℕ)
      → Balanced s.heap others
      → Kept others s.heap.faults (finish_send m transport s c d (malloc m n s.heap))
  unfolding finish_send
  finish_send-Kept s c d others n b =
      malloc_cases (λ o. Kept others s.heap.faults (finish_send m transport s c d o)) m n s.heap
        (λ e. (b, refl))
        (λ k e.
          let h : Heap = record s.heap { live = k.addr ∷ s.heap.live } in
          let kept = send_locked-heap (record s { heap = h }) c d k.bytes in
          rw kept (free-Balanced (some k) h others (λ a. omega (arith, b a))))

  -- Whatever is sent, on whatever branch, the blocks that were live before the call are live after it,
  -- as often as before, and none is freed twice: the frame's block is freed.
  pub data_send-Balanced :
      (s : DataState Q W) (d : Option Data) (others : ℕ → ℕ)
      → Balanced s.heap others
      → let (s', ret) = data_send m transport s d in
        Balanced s'.heap others × (s'.heap.faults ≡ s.heap.faults)
  unfolding data_send
  data_send-Balanced s none others b = (b, refl)
  data_send-Balanced s (some d) others b = elim (Bool-cases bad) [
    | inl e ↦ rw e (b, refl)
    | inr e ↦ elim (Option-cases (get_elem? s.links d.link)) [
      | inl k ↦ rw (e, k) (b, refl)
      | inr (c, k) ↦
          rw (e, k)
            (if_cases (Kept others s.heap.faults) c.send_lock _ _
              (λ t. finish_send-Kept s c d others _ b) (λ t. (b, refl)))
    ]
  ]
    where
      bad : Bool
      bad =
          (ltb 0 d.payload_len && is_null d.payload)
          || is_bad_link s.links d.link
          || ltb 65526 d.payload_len

  -- The state after a callback took a frame on a link.
  abbrev pub sent_state : DataState Q W → Data → LinkContext → W → DataState Q W
  sent_state s d c w = record s {
    links =
        protocol_state_put s.links d.link
          (record c.protocol { tx_sn = (c.protocol.tx_sn + 1) % 256 });
    world = w;
  }

  -- What a send with a lock, a callback and a block does.
  abbrev pub Accepted : DataState Q W → Data → LinkContext → ℕ → DataState Q W × EspErr → Type 0
  Accepted s d c cb o =
      let (w, ret) =
        transport cb (frame c.protocol.tx_sn (payload_of d)) (d.payload_len + 9) s.world in
      o ≡ (sent_state s d c w, ret)

  submit_frame :
      (s : DataState Q W) (cb : ℕ) (links : Links) (out : List ℕ) (n : ℕ)
      → submit m transport s cb (links, some out, n + 9) ≡ (
        record s { links = links; world = (transport cb out (n + 9) s.world).0 },
        (transport cb out (n + 9) s.world).1,
      )
  unfolding submit
  submit_frame s cb links out n = ground arith

  finish_send-Accepted :
      (s : DataState Q W) (d : Data) (c : LinkContext) (cb : ℕ) (b : Block)
      → get_elem? s.links d.link ≡ some c
      → is_bad_link s.links d.link ≡ false
      → c.send_cb ≡ some cb
      → IsData d
      → length b.bytes ≡ d.payload_len + 9
      → Accepted s d c cb
          (finish_send m transport s c d (record s.heap { live = b.addr ∷ s.heap.live }, some b))
  unfolding finish_send send_locked
  finish_send-Accepted s d c cb b at good has v size =
      let s1 : DataState Q W = record s { heap = record s.heap { live = b.addr ∷ s.heap.live } } in
      ap (λ (o : DataState Q W × EspErr). (record o.0 { heap = free (some b) o.0.heap }, o.1))
        (ap
            (λ (o : Option ℕ). elim o [
              | none ↦ (s1, invalid_state)
              | some cb ↦ submit m transport s1 cb (rawdata_encode s1.links (some d) (some b.bytes))
            ])
            has
          ∙ ap (submit m transport s1 cb) (encoded s.links d c b.bytes at good v size)
          ∙ submit_frame s1 cb _ _ d.payload_len)
      ∙ ap
          (λ (h : Heap).
            let (w, ret) =
              transport cb (frame c.protocol.tx_sn (payload_of d)) (d.payload_len + 9) s.world in
            (record (sent_state s d c w) { heap = h }, ret))
          (free_fresh b s.heap)

  -- A valid message on a link whose lock exists and that has a callback, with a block of the frame's
  -- size from the allocator, is given to the callback as its frame, once and with the frame's length,
  -- and the answer is the callback's. The send number is then the next one; the heap is the one before.
  pub data_send_lem :
      (s : DataState Q W) (d : Data) (c : LinkContext) (cb : ℕ) (b : Block)
      → get_elem? s.links d.link ≡ some c
      → is_bad_link s.links d.link ≡ false
      → c.send_lock ≡ true
      → c.send_cb ≡ some cb
      → IsData d
      → m (d.payload_len + 9) ≡ some b
      → length b.bytes ≡ d.payload_len + 9
      → Accepted s d c cb (data_send m transport s (some d))
  unfolding data_send
  data_send_lem s d c cb b at good lock has v got size =
      let len : u16 (d.payload_len + 9) ≡ d.payload_len + 9 = omega (arith, v.fits) in
      let there : ltb 0 d.payload_len && is_null d.payload ≡ false = payload_there d v in
      let fits : ltb 65526 d.payload_len ≡ false = ground (arith, v.fits) in
      rw (there, good, fits, at)
        (if_cases (Accepted s d c cb) c.send_lock _ _
          (λ t.
            rw (len, malloc-some m (d.payload_len + 9) s.heap b got)
              (finish_send-Accepted s d c cb b at good has v size))
          (λ f. absurd (ground (arith, lock, f))))

  -- What holds outside of the layer before a send, and which each call of a callback keeps, holds after it.
  pub data_send-world :
      (P : W → Type 0) (s : DataState Q W) (d : Option Data)
      → ((cb : ℕ) (bytes : List ℕ) (n : ℕ) (w : W) → P w → P (transport cb bytes n w).0)
      → P s.world
      → P (data_send m transport s d).0.world
  unfolding data_send finish_send send_locked submit
  data_send-world P s none keeps h = h
  data_send-world P s (some d) keeps h = elim (Bool-cases bad) [
    | inl e ↦ rw e h
    | inr e ↦ elim (Option-cases (get_elem? s.links d.link)) [
      | inl k ↦ rw (e, k) h
      | inr (c, k) ↦
          rw (e, k)
            (if_cases (λ (o : DataState Q W × EspErr). P o.0.world) c.send_lock
              (finish_send m transport s c d (malloc m (u16 (d.payload_len + 9)) s.heap))
              (s, invalid_state) (λ t. finished c _) (λ t. h))
    ]
  ]
    where
      bad : Bool
      bad =
          (ltb 0 d.payload_len && is_null d.payload)
          || is_bad_link s.links d.link
          || ltb 65526 d.payload_len

      submitted :
          (t : DataState Q W) (cb : ℕ) (o : Links × Option (List ℕ) × ℕ)
          → P t.world
          → P (submit m transport t cb o).0.world
      submitted t cb (l, none, n) k = k
      submitted t cb (l, some bytes, n) k =
          if_cases (λ (o : DataState Q W × EspErr). P o.0.world) _ _ _ (λ e. k)
            (λ e. keeps cb bytes n t.world k)

      locked_by :
          (t : DataState Q W) (c : LinkContext) (buf : List ℕ)
          → P t.world
          → P (send_locked m transport t c d buf).0.world
      locked_by t c buf k = elim (Option-cases c.send_cb) [
        | inl e ↦ rw e k
        | inr (cb, e) ↦ rw e (submitted t cb (rawdata_encode t.links (some d) (some buf)) k)
      ]

      finished :
          (c : LinkContext) (o : Heap × Option Block) → P (finish_send m transport s c d o).0.world
      finished c (hp, none) = h
      finished c (hp, some b) = locked_by (record s { heap = hp }) c b.bytes h
