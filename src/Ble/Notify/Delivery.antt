-- ===== src/Ble/Notify/Delivery.antt =====
-- pipe/transport/ble/agcore_ble_pipe.c: a notification ends, and a receiver that puts its packets
-- together has the message.
use agcore.Prelude.{
  ℕ, ◌+◌, ◌-◌, ◌*◌, ◌≤◌, ◌<◌, ◌≡◌, ◌≢◌, refl, ap, sym, subst, ◌∙◌, List, [], ◌∷◌, Option, none,
  some, ◌==◌, ◌||◌, ltb, u16, length, arith, if_cases,
}
use agcore.Platform.{esp_ok, invalid_arg, invalid_state}
use agcore.Platform.Heap.{Heap, Malloc, free}
use agcore.Data.Types.{FragmentState}
use agcore.Data.Fragment.{FragmentResult}
use agcore.Data.Fragment.Receive.{held}
use agcore.Data.Fragment.Reassembly.{
  fragments, joined, AllFilled, deliver, results, deliver_message,
}
use agcore.Ble.{BleState, conn_handle_none}
use agcore.Ble.Notify.{Attempt, Sent, notify}
use agcore.Ble.Notify.Pieces.{
  IsCut, notify_loop-returns, notify_loop-IsCut, Returns, ended-Returns, bad_end,
}

-- The MTU leaves room for a byte behind the headers.
abbrev pub HasRoom : BleState → Type 0
HasRoom s = (7 < s.gap_mtu) × (s.gap_mtu < 65536)

-- A notification ends after finitely many attempts, whatever NimBLE answers to them: it runs out of the
-- three retries, or out of bytes.
pub notify-returns :
    (answers : ℕ → Attempt) (max_len : ℕ) (s : BleState) (p : Option (List ℕ)) (len : ℕ)
    → HasRoom s
    → max_len < 65536
    → notify answers max_len s p len ≢ none
unfolding notify
notify-returns answers max_len s none len room w = ended-Returns [] invalid_arg
notify-returns answers max_len s (some p) len room w =
    if_cases Returns ((len == 0) || ltb max_len len) _ _ (λ e. ended-Returns [] invalid_arg)
      (λ e.
        if_cases Returns (s.conn_handle == conn_handle_none) _ _
          (λ f. ended-Returns [] invalid_state)
          (λ f.
            notify_loop-returns answers s.session p len (u16 (s.gap_mtu + 65536 - 3 - 4))
              (3 * len + 4) 0 0 0 (omega (arith, room.0, room.1)) (ground (arith, e)) (omega arith)
              (omega arith)))

notify-IsCut :
    (answers : ℕ → Attempt) (max_len : ℕ) (s : BleState) (p : List ℕ) (packets : List (List ℕ))
    → HasRoom s
    → max_len < 65536
    → notify answers max_len s (some p) (length p) ≡ some (packets, esp_ok)
    → (0 < length p)
      × (length p ≤ max_len)
      × IsCut p (length p) (u16 (s.gap_mtu + 65536 - 3 - 4)) 0 packets
unfolding notify
notify-IsCut answers max_len s p packets room w =
    if_cases Cut ((length p == 0) || ltb max_len (length p)) _ _
      (λ e h. absurd (bad_end [] invalid_arg h (λ x. cc)))
      (λ e.
        if_cases Cut (s.conn_handle == conn_handle_none) _ _
          (λ f h. absurd (bad_end [] invalid_state h (λ x. cc)))
          (λ f h. (
            ground (arith, e),
            ground (arith, e),
            notify_loop-IsCut answers s.session p (length p) (u16 (s.gap_mtu + 65536 - 3 - 4))
                (3 * length p + 4) 0 0 0 packets (omega (arith, room.0, room.1)) (ground (arith, e))
                refl (omega arith) h,
          )))
  where
    Cut : Sent → Type 0
    Cut o =
        o ≡ some (packets, esp_ok)
        → (0 < length p)
          × (length p ≤ max_len)
          × IsCut p (length p) (u16 (s.gap_mtu + 65536 - 3 - 4)) 0 packets

-- What a receiver has after the packets of a message.
abbrev pub HasMessage : List ℕ → ℕ → Heap × FragmentState × List FragmentResult → Type 0
HasMessage p addr o =
    (o.1 ≡ held addr p []) × (c : List ℕ) × (cs : List (List ℕ)) × (o.2 ≡ results c cs)

pieces-HasMessage :
    (m : Malloc) (max_len : ℕ) (h : Heap) (f : FragmentState) (addr : ℕ) (bytes p : List ℕ)
    (pieces : List (List ℕ))
    → AllFilled pieces
    → joined pieces ≡ p
    → 0 < length p
    → length p ≤ max_len
    → max_len < 65536
    → m (length p) ≡ some (record { addr = addr; bytes = bytes })
    → length bytes ≡ length p
    → HasMessage p addr (deliver m max_len h f (fragments (length p) 0 pieces))
pieces-HasMessage m max_len h f addr bytes p [] filled whole pos fits w got size =
    absurd (omega (arith, ap (λ (l : List ℕ). length l) whole))
pieces-HasMessage m max_len h f addr bytes p (c ∷ cs) filled whole pos fits w got size =
    subst (λ (n : ℕ). HasMessage p addr (deliver m max_len h f (fragments n 0 (c ∷ cs)))) size
      (
        ap (λ (o : Heap × FragmentState × List FragmentResult). o.1) whole_run
            ∙ ap (λ (l : List ℕ). held addr l []) whole,
        c,
        cs,
        ap (λ (o : Heap × FragmentState × List FragmentResult). o.2) whole_run,
      )
  where
    whole_run : deliver m max_len h f (fragments (length bytes) 0 (c ∷ cs)) ≡ (
      record (free f.buf h) { live = addr ∷ (free f.buf h).live },
      held addr (joined (c ∷ cs)) [],
      results c cs,
    )
    whole_run =
        deliver_message m h f addr max_len bytes c cs filled
          (size ∙ sym (ap (λ (l : List ℕ). length l) whole)) (ap m size ∙ got) (omega (arith, size))
          w

-- When a notification of a message ends with ESP_OK, the packets that NimBLE accepted are such that a
-- receiver with a block of the message's size, in whatever state it was, has the message: its bytes in
-- the block, all received, after MORE for each packet but the last and COMPLETE for that. The attempts in
-- between may have been refused for want of buffers.
pub notify-deliver :
    (answers : ℕ → Attempt) (max_len : ℕ) (s : BleState) (p : List ℕ) (packets : List (List ℕ))
    (m : Malloc) (h : Heap) (f : FragmentState) (addr : ℕ) (bytes : List ℕ)
    → HasRoom s
    → max_len < 65536
    → notify answers max_len s (some p) (length p) ≡ some (packets, esp_ok)
    → m (length p) ≡ some (record { addr = addr; bytes = bytes })
    → length bytes ≡ length p
    → HasMessage p addr (deliver m max_len h f packets)
notify-deliver answers max_len s p packets m h f addr bytes room w sent got size =
    let (pos, fits, v) = notify-IsCut answers max_len s p packets room w sent in
    subst (λ (ps : List (List ℕ)). HasMessage p addr (deliver m max_len h f ps))
      (sym v.are_fragments)
      (pieces-HasMessage m max_len h f addr bytes p v.pieces v.filled v.whole pos fits w got size)
