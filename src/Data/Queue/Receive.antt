-- ===== src/Data/Queue/Receive.antt =====
-- pipe/data/agcore_data.c: the receive queue and its task.
use agcore.Prelude.{
  ℕ, zero, suc, ◌+◌, ◌≡◌, ◌≢◌, ◌⊎◌, refl, ap, ◌∙◌, List, [], ◌∷◌, ◌++◌, Option, none, some, length,
  get_elem?, arith, ◌==◌, if_cases, Option-cases, inl, inr,
}
use agcore.Platform.{EspErr, esp_ok, no_mem, invalid_state}
use agcore.Platform.Heap.{Block, Balanced, count_block, free-Balanced}
use agcore.Platform.Queue.{QueueOps}
use agcore.Data.Types.{Data}
use agcore.Data.Protocol.{rawdata_decode}
use agcore.Data.Route.{route_handler, route_loop}
use agcore.Data.Route.Registration.{node_blocks}
use agcore.Data.Queue.{RawData, DataState, data_push, handle_raw, data_task_step, empty_data}

-- The blocks that the items of a queue hold.
abbrev pub raw_blocks : List RawData → ℕ → ℕ
raw_blocks [] a = 0
raw_blocks (r ∷ rs) a = count_block a (some r.buf) + raw_blocks rs a

raw_blocks-append :
    (rs : List RawData) (r : RawData) (a : ℕ)
    → raw_blocks (rs ++ (r ∷ [])) a ≡ raw_blocks rs a + count_block a (some r.buf)
raw_blocks-append [] r a = omega arith
raw_blocks-append (x ∷ rs) r a = omega (arith, raw_blocks-append rs r a)

abbrev pub queue_blocks : {Q : Type 0} → QueueOps RawData Q → Option Q → ℕ → ℕ
queue_blocks ops none a = 0
queue_blocks ops (some q) a = raw_blocks (ops.contents q) a

abbrev pub queue_items : {Q : Type 0} → QueueOps RawData Q → Option Q → List RawData
queue_items ops none = []
queue_items ops (some q) = ops.contents q

module _ {Q W : Type 0} (ops : QueueOps RawData Q) where
  -- The live blocks are those of the queue and the nodes, and those of other owners.
  abbrev pub Owned : (ℕ → ℕ) → DataState Q W → Type 0
  Owned others s =
      Balanced s.heap (λ a. others a + (node_blocks s.nodes a + queue_blocks ops s.queue a))

  -- What a push makes of a block that the caller owns.
  abbrev pub Moves : (ℕ → ℕ) → DataState Q W → DataState Q W × EspErr → Type 0
  Moves others s o =
      ((o.1 ≡ esp_ok) × Owned others o.0 × (o.0.heap ≡ s.heap) × (o.0.links ≡ s.links))
      ⊎ ((o.1 ≢ esp_ok) × (o.0 ≡ s))

  -- A push that succeeds moves the block from the caller to the queue, and one that fails, for whatever
  -- reason, changes nothing, so that the caller owns the block as before.
  pub data_push-Moves :
      (s : DataState Q W) (link : ℕ) (raw : Block) (raw_len : ℕ) (others : ℕ → ℕ)
      → Owned (λ a. others a + count_block a (some raw)) s
      → Moves others s (data_push ops s link (some raw) raw_len)
  unfolding data_push
  data_push-Moves s link raw raw_len others b =
      if_cases (Moves others s) _ _ _ (λ e. inr (λ h. cc, refl)) (λ e. go s.queue refl)
    where
      item : RawData
      item = record { link = link; len = raw_len; buf = raw }

      go :
          (o : Option Q)
          → s.queue ≡ o
          → Moves others s (elim o [
            | none ↦ (s, invalid_state)
            | some q ↦ elim (ops.send q item) [
              | none ↦ (s, no_mem)
              | some q' ↦ (record s { queue = some q' }, esp_ok)
            ]
          ])
      go none e = inr (λ h. cc, refl)
      go (some q) e = elim (Option-cases (ops.send q item)) [
        | inl t ↦ rw t (inr (λ h. cc, refl))
        | inr (q', t) ↦ rw t (
            inl (
              refl,
              λ a. omega (
                arith,
                b a,
                ap (λ o. queue_blocks ops o a) e,
                ap (λ (rs : List RawData). raw_blocks rs a) (ops.send-contents q item q' t),
                raw_blocks-append (ops.contents q) item a,
              ),
              refl,
              refl,
            ))
      ]

  module _ (call : ℕ → Data → DataState Q W → DataState Q W) where
    abbrev Same : (ℕ → ℕ) → ℕ → DataState Q W → Type 0
    Same others faults s = Owned others s × (s.heap.faults ≡ faults)

    -- While the frame's block is live, a callback leaves it and the blocks of others as they are, and frees
    -- none twice. Where that block is not live, nothing is asked of a callback.
    abbrev pub Keeps : (ℕ → ℕ) → Block → Type 0
    Keeps others frame =
        (cb : ℕ) (d : Data) (s : DataState Q W)
        → Owned (λ a. others a + count_block a (some frame)) s
        → Owned (λ a. others a + count_block a (some frame)) (call cb d s)
          × ((call cb d s).heap.faults ≡ s.heap.faults)

    -- The blocks of others and of the frame.
    abbrev with_frame : (ℕ → ℕ) → Block → ℕ → ℕ
    with_frame others frame a = others a + count_block a (some frame)

    route_loop-Same :
        (others : ℕ → ℕ) (frame : Block)
        → Keeps others frame
        → (faults rounds i : ℕ) (d : Data) (s : DataState Q W)
        → Same (with_frame others frame) faults s
        → Same (with_frame others frame) faults (route_loop (λ t. t.nodes) call rounds i d s)
    unfolding route_loop
    route_loop-Same others frame keeps faults zero i d s b = b
    route_loop-Same others frame keeps faults (suc rounds) i d s b =
        elim (Option-cases (get_elem? s.nodes i)) [
          | inl e ↦ rw (e, route_loop) b
          | inr (n, e) ↦
              rw (e, route_loop)
                (let k = keeps n.cb d s b.0 in
                  route_loop-Same others frame keeps faults rounds (i + 1) d (call n.cb d s)
                    (k.0, k.1 ∙ b.1))
        ]

    route_handler-Same :
        (others : ℕ → ℕ) (frame : Block)
        → Keeps others frame
        → (faults : ℕ) (d : Option Data) (s : DataState Q W)
        → Same (with_frame others frame) faults s
        → Same (with_frame others frame) faults (route_handler (λ t. t.nodes) call d s)
    unfolding route_handler
    route_handler-Same others frame keeps faults none s b = b
    route_handler-Same others frame keeps faults (some d) s b =
        if_cases (Same (with_frame others frame) faults) _ _ _ (λ e. b)
          (λ e. route_loop-Same others frame keeps faults (length s.nodes) 0 d s b)

    handle_raw-Same :
        (others : ℕ → ℕ) (s : DataState Q W) (raw : RawData)
        → Keeps others raw.buf
        → Owned (with_frame others raw.buf) s
        → Same others s.heap.faults (handle_raw ops call s raw)
    unfolding handle_raw
    handle_raw-Same others s raw keeps b =
        let o = rawdata_decode s.links (some raw.buf.bytes) raw.len (some (empty_data raw.link)) in
        let t : DataState Q W = record s { links = o.0 } in
        let routed =
          if_cases (Same (with_frame others raw.buf) s.heap.faults) (o.2 == 0) t
            (route_handler (λ t. t.nodes) call o.1 t) (λ e. (b, refl))
            (λ e. route_handler-Same others raw.buf keeps s.heap.faults o.1 t (b, refl)) in
        let freed = free-Balanced (some raw.buf) _ _ (λ a. omega (arith, routed.0 a)) in
        (freed.0, freed.1 ∙ routed.1)

    -- Let each callback, as long as the block of the oldest item of the queue is live, keep that block and
    -- those of others, and free none twice; nothing is asked of one that runs without the block. Then a
    -- round of the task, whatever the bytes of the item are, leaves the blocks of others, of the nodes and
    -- of the items in the queue live, and no other, and it frees none twice.
    pub data_task_step-Owned :
        (others : ℕ → ℕ) (s : DataState Q W)
        → ((raw : RawData) (rest : List RawData)
            → queue_items ops s.queue ≡ raw ∷ rest
            → Keeps others raw.buf)
        → Owned others s
        → let s' = data_task_step ops call s in Owned others s' × (s'.heap.faults ≡ s.heap.faults)
    unfolding data_task_step
    data_task_step-Owned others s keeps b = go s.queue refl
      where
        go :
            (o : Option Q)
            → s.queue ≡ o
            → Same others s.heap.faults (elim o [
              | none ↦ s
              | some q ↦ elim (ops.receive q) [
                | none ↦ s
                | some o ↦ handle_raw ops call (record s { queue = some o.1 }) o.0
              ]
            ])
        go none e = (b, refl)
        go (some q) e = elim (Option-cases (ops.receive q)) [
          | inl t ↦ rw t (b, refl)
          | inr ((raw, q'), t) ↦
              let split = ops.receive-contents q raw q' t in
              rw t (
                handle_raw-Same others (record s { queue = some q' }) raw
                  (keeps raw (ops.contents q') (ap (λ o. queue_items ops o) e ∙ split))
                  (λ a. omega (
                    arith,
                    b a,
                    ap (λ o. queue_blocks ops o a) e,
                    ap (λ (rs : List RawData). raw_blocks rs a) split,
                  )))
        ]
