-- ===== src/Data/Queue/Delivery.antt =====
-- pipe/data/agcore_data.c: what one round of the task does with a frame.
use agcore.Prelude.{
  ℕ, ◌+◌, ◌≤◌, ◌<◌, ◌≡◌, refl, ap, ap₂, ◌≢◌, sym, ◌∙◌, List, [], ◌∷◌, Option, none, some, false,
  length, map, arith, if◌then◌else◌, ◌==◌, Option-cases, inl, inr,
}
use agcore.Platform.Heap.{Block, free}
use agcore.Platform.Queue.{QueueOps}
use agcore.Data.Types.{Data, Links, ProtocolState, protocol_state_get, rawdata_payload_max_len}
use agcore.Data.Protocol.{rawdata_decode}
use agcore.Data.Protocol.Frame.{frame, payload_of}
use agcore.Data.Protocol.Decode.{IsNew, remember, decoded, rawdata_decode_exact}
use agcore.Data.Protocol.RoundTrip.{payload_of-decoded}
use agcore.Data.Route.{route_handler}
use agcore.Data.Route.Dispatch.{each, OnlyAdds, route_handler-each}
use agcore.Data.Queue.{RawData, DataState, handle_raw, data_task_step, empty_data}

abbrev head_or : List RawData → RawData → RawData
head_or [] d = d
head_or (r ∷ rs) d = r

abbrev tail : List RawData → List RawData
tail [] = []
tail (r ∷ rs) = rs

cons-ne-nil : {r : RawData} {rs : List RawData} → (r ∷ rs) ≢ []
cons-ne-nil e = cc

module _ {Q W : Type 0} (ops : QueueOps RawData Q)
    (call : ℕ → Data → DataState Q W → DataState Q W) where
  -- With the oldest item in hand.
  take_oldest :
      (s : DataState Q W) (q : Q) (raw : RawData) (rest : List RawData)
      → s.queue ≡ some q
      → ops.contents q ≡ raw ∷ rest
      → (q' : Q) × (ops.contents q' ≡ rest)
        × (data_task_step ops call s ≡ handle_raw ops call (record s { queue = some q' }) raw)
  unfolding data_task_step
  take_oldest s q raw rest e c = elim (Option-cases (ops.receive q)) [
    | inl t ↦ absurd (cons-ne-nil (sym c ∙ ops.receive-none q t))
    | inr ((r, q'), t) ↦
        let k : raw ∷ rest ≡ r ∷ ops.contents q' = sym c ∙ ops.receive-contents q r q' t in
        (
          q',
          ap tail (sym k),
          ap (λ (o : Option Q). elim o [ none ↦ s | some q ↦ taken (ops.receive q) ]) e
              ∙ ap taken t
              ∙ ap
                  (λ (l : List RawData).
                    handle_raw ops call (record s { queue = some q' }) (head_or l raw))
                  (sym k),
        )
  ]
    where
      taken : Option (RawData × Q) → DataState Q W
      taken o = elim o [
        | none ↦ s
        | some o ↦ handle_raw ops call (record s { queue = some o.1 }) o.0
      ]

  -- The state that the callbacks leave, with the block freed.
  abbrev pub freed : Block → DataState Q W → DataState Q W
  freed b s = record s { heap = free (some b) s.heap }

  handle_frame :
      (s : DataState Q W) (raw : RawData) (state : ProtocolState) (sn : ℕ) (payload : List ℕ)
      → OnlyAdds {W = DataState Q W} (λ t. t.nodes) call
      → protocol_state_get s.links raw.link ≡ some state
      → sn < 256
      → IsNew state sn
      → length payload ≤ rawdata_payload_max_len
      → raw.buf.bytes ≡ frame sn payload
      → raw.len ≡ length payload + 9
      → handle_raw ops call s raw
        ≡ freed raw.buf (
            each call
              (map (λ n. n.cb) s.nodes)
              (decoded (empty_data raw.link) sn payload [])
              (record s { links = remember s.links raw.link state sn }))
  unfolding handle_raw
  handle_frame s raw state sn payload adds h byte new fits e n =
      ap finish (
        ap₂
          (λ (bytes : List ℕ) (len : ℕ).
            rawdata_decode s.links (some bytes) len (some (empty_data raw.link)))
          e n
        ∙ rawdata_decode_exact s.links (empty_data raw.link) state sn payload h fits byte new)
      ∙ positive
      ∙ ap (freed raw.buf) (route_handler-each (λ t. t.nodes) call got after adds (ground arith))
    where
      got : Data
      got = decoded (empty_data raw.link) sn payload []

      after : DataState Q W
      after = record s { links = remember s.links raw.link state sn }

      finish : Links × Option Data × ℕ → DataState Q W
      finish o =
          let t : DataState Q W = record s { links = o.0 } in
          freed raw.buf (if o.2 == 0 then t else route_handler (λ t. t.nodes) call o.1 t)

      positive :
          finish (remember s.links raw.link state sn, some got, length payload + 9)
          ≡ freed raw.buf (route_handler (λ t. t.nodes) call (some got) after)
      positive = let z : (length payload + 9) == 0 ≡ false = ground arith in rw z refl

  -- When the oldest item is a new frame on a link of the table, one round of the task takes it from the
  -- queue, gives one message on the frame's link with its payload and number to each callback that is registered, in their
  -- order, with the number kept in the table, and then frees the block. The callbacks may register others.
  pub data_task_step-delivers :
      (s : DataState Q W) (q : Q) (raw : RawData) (rest : List RawData) (state : ProtocolState)
      (sn : ℕ) (payload : List ℕ)
      → OnlyAdds {W = DataState Q W} (λ t. t.nodes) call
      → s.queue ≡ some q
      → ops.contents q ≡ raw ∷ rest
      → protocol_state_get s.links raw.link ≡ some state
      → sn < 256
      → IsNew state sn
      → length payload ≤ rawdata_payload_max_len
      → raw.buf.bytes ≡ frame sn payload
      → raw.len ≡ length payload + 9
      → (q' : Q) × (got : Data) × (ops.contents q' ≡ rest)
        × (payload_of got ≡ payload)
        × (got.sn ≡ sn)
        × (got.link ≡ raw.link)
        × (data_task_step ops call s
            ≡ freed raw.buf (
                each call
                  (map (λ n. n.cb) s.nodes)
                  got
                  (record s { queue = some q'; links = remember s.links raw.link state sn })))
  data_task_step-delivers s q raw rest state sn payload adds e c h byte new fits b n =
      let (q', left, step) = take_oldest s q raw rest e c in
      (
        q',
        decoded (empty_data raw.link) sn payload [],
        left,
        payload_of-decoded (empty_data raw.link) sn payload [],
        refl,
        refl,
        step
            ∙ handle_frame (record s { queue = some q' }) raw state sn payload adds h byte new fits
                b n,
      )
