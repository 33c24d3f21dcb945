-- ===== src/Ble/Notify/Pieces.antt =====
-- pipe/transport/ble/agcore_ble_pipe.c: what a notification puts on the air.
use agcore.Prelude.{
  ℕ, zero, suc, ◌+◌, ◌-◌, ◌*◌, ◌≤◌, ◌<◌, ◌≡◌, ◌≢◌, refl, ap, ap₂, sym, subst, ◌∙◌, List, [], ◌∷◌,
  ◌++◌, none, some, not, ◌==◌, ◌||◌, leb, if◌then◌else◌, u16, take, drop, length, arith, if_cases,
  eq-nil_of_length, length-take_le, length-drop, take-append-drop, drop-drop,
}
use agcore.Platform.{EspErr, esp_ok, esp_fail, no_mem, invalid_state, timeout}
use agcore.Data.Fragment.Receive.{fragment_encode_lem}
use agcore.Data.Fragment.Reassembly.{fragments, joined, AllFilled}
use agcore.Ble.Notify.{
  NotifyResult, accepted, again, failed, Attempt, Sent, with_packet, chunk_len, packet, notify_loop,
}

-- The pieces whose fragments the packets are, from an offset on.
pub record IsCut (p : List ℕ) (len max sent : ℕ) (packets : List (List ℕ)) : Type 0 where
  pub pieces : List (List ℕ)
  pub are_fragments : packets ≡ fragments len sent pieces
  pub whole : joined pieces ≡ drop sent p
  pub filled : AllFilled pieces

abbrev pub Returns : Sent → Type 0
Returns o = o ≢ none

with_packet-Returns : (q : List ℕ) (o : Sent) → Returns o → Returns (with_packet q o)
with_packet-Returns q none h e = h refl
with_packet-Returns q (some (ps, r)) h e = cc

abbrev packets_of : Sent → List (List ℕ)
packets_of none = []
packets_of (some (ps, r)) = ps

abbrev error_of : Sent → EspErr
error_of none = esp_fail
error_of (some (ps, r)) = r

abbrev pub ended : List (List ℕ) → EspErr → Sent
ended ps r = some (ps, r)

pub ended-Returns : (ps : List (List ℕ)) (r : EspErr) → Returns (ended ps r)
ended-Returns ps r h = cc

-- What an answer makes of the outcomes of the rest, where the packet is accepted, and where not.
abbrev after_answer : List ℕ → ℕ → Sent → Sent → NotifyResult → Sent
after_answer q retries onward retry r = elim r [
  | accepted ↦ with_packet q onward
  | again ↦ if leb 3 (retries + 1) then some ([], timeout) else retry
  | failed ↦ some ([], esp_fail)
]

after_answer-Returns :
    (q : List ℕ) (retries : ℕ) (onward retry : Sent) (r : NotifyResult)
    → Returns onward
    → (retries + 1 < 3 → Returns retry)
    → Returns (after_answer q retries onward retry r)
after_answer-Returns q retries onward retry accepted f g = with_packet-Returns q onward f
after_answer-Returns q retries onward retry again f g =
    if_cases Returns (leb 3 (retries + 1)) _ _ (λ e. ended-Returns [] timeout)
      (λ e. g (ground (arith, e)))
after_answer-Returns q retries onward retry failed f g = ended-Returns [] esp_fail

pub bad_end :
    {qs : List (List ℕ)} (ps : List (List ℕ)) (r : EspErr)
    → ended ps r ≡ ended qs esp_ok
    → r ≢ esp_ok
    → ⊥
bad_end ps r e h = h (ap error_of e)

drop-beyond : (n : ℕ) (xs : List ℕ) → length xs ≤ n → drop n xs ≡ []
drop-beyond n xs h = eq-nil_of_length (drop n xs) (omega (arith, length-drop n xs))

module _ (answers : ℕ → Attempt) (session : ℕ) (p : List ℕ) (len max : ℕ) where
  -- The loop returns within its fuel: each byte and each retry takes an attempt from it.
  pub notify_loop-returns :
      (fuel k sent retries : ℕ)
      → 0 < max
      → len < 65536
      → retries < 3
      → 3 * (len - sent) + (3 - retries) < fuel
      → notify_loop answers session p len max fuel k sent retries ≢ none
  unfolding notify_loop
  notify_loop-returns zero k sent retries pos w few enough = absurd (omega arith)
  notify_loop-returns (suc fuel) k sent retries pos w few enough =
      if_cases Returns (leb len sent) _ _ (λ e. ended-Returns [] esp_ok)
        (λ e.
          if_cases Returns (not (answers k).from_flat || not (answers k).appended) _ _
            (λ f. ended-Returns [] no_mem)
            (λ f.
              if_cases Returns (not ((answers k).session_now == session)) _ _
                (λ g. ended-Returns [] invalid_state)
                (λ g.
                  let c : ℕ = chunk_len answers session p len max sent in
                  after_answer-Returns (packet answers session p len max sent) retries _ _
                    (answers k).result
                    (notify_loop-returns fuel (k + 1) (u16 (sent + c)) 0 pos w (omega arith)
                      (ground (arith, e)))
                    (λ h.
                      notify_loop-returns fuel (k + 1) sent (retries + 1) pos w h (omega arith)))))

  abbrev pub Cuts : List (List ℕ) → ℕ → Sent → Type 0
  Cuts packets sent o = o ≡ some (packets, esp_ok) → IsCut p len max sent packets

  after_answer-Cuts :
      (q : List ℕ) (packets : List (List ℕ)) (sent retries : ℕ) (onward retry : Sent)
      (r : NotifyResult)
      → ((ps : List (List ℕ)) → onward ≡ some (ps, esp_ok) → IsCut p len max sent (q ∷ ps))
      → Cuts packets sent retry
      → Cuts packets sent (after_answer q retries onward retry r)
  after_answer-Cuts q packets sent retries none retry accepted f g = λ h. absurd (ground (arith, h))
  after_answer-Cuts q packets sent retries (some (ps, r)) retry accepted f g = λ h.
      subst (IsCut p len max sent) (ap packets_of h)
        (f ps (ap (λ (x : EspErr). ended ps x) (ap error_of h)))
  after_answer-Cuts q packets sent retries onward retry again f g =
      if_cases (Cuts packets sent) (leb 3 (retries + 1)) _ _
        (λ e h. absurd (bad_end [] timeout h (λ x. cc))) (λ e. g)
  after_answer-Cuts q packets sent retries onward retry failed f g =
      λ h. absurd (bad_end [] esp_fail h (λ x. cc))

  -- One more piece in front.
  extend :
      (sent c : ℕ) (ps : List (List ℕ))
      → c ≡ chunk_len answers session p len max sent
      → 0 < c
      → sent + c ≤ length p
      → IsCut p len max (sent + c) ps
      → IsCut p len max sent (packet answers session p len max sent ∷ ps)
  unfolding fragments
  extend sent c ps e pos fits v =
      let chunk = take c (drop sent p) in
      let n : length chunk ≡ c =
        length-take_le c (drop sent p) (omega (arith, length-drop sent p)) in
      record {
        pieces = chunk ∷ v.pieces;
        are_fragments =
            ap₂ (λ (q : List ℕ) (qs : List (List ℕ)). q ∷ qs)
              (ap₂ (λ (h t : List ℕ). h ++ t) (fragment_encode_lem 0 0 0 0 len sent)
                (ap (λ (k : ℕ). take k (drop sent p)) (sym e)))
              (v.are_fragments ∙ ap (λ (k : ℕ). fragments len (sent + k) v.pieces) (sym n));
        whole =
            ap (λ (t : List ℕ). chunk ++ t) (v.whole ∙ sym (drop-drop c sent p))
            ∙ take-append-drop c (drop sent p);
        filled = (omega (arith, n), v.filled);
      }

  -- A loop that ends well has cut what was left.
  pub notify_loop-IsCut :
      (fuel k sent retries : ℕ) (packets : List (List ℕ))
      → 0 < max
      → len < 65536
      → len ≡ length p
      → sent ≤ len
      → Cuts packets sent (notify_loop answers session p len max fuel k sent retries)
  unfolding notify_loop fragments
  notify_loop-IsCut zero k sent retries packets pos w whole inside = λ e. absurd (ground (arith, e))
  notify_loop-IsCut (suc fuel) k sent retries packets pos w whole inside =
      if_cases (Cuts packets sent) (leb len sent) _ _
        (λ e h. record {
          pieces = [];
          are_fragments = sym (ap packets_of h);
          whole = sym (drop-beyond sent p (ground (arith, e)));
          filled = tt;
        })
        (λ e.
          if_cases (Cuts packets sent) (not (answers k).from_flat || not (answers k).appended) _ _
            (λ f h. absurd (bad_end [] no_mem h (λ x. cc)))
            (λ f.
              if_cases (Cuts packets sent) (not ((answers k).session_now == session)) _ _
                (λ g h. absurd (bad_end [] invalid_state h (λ x. cc)))
                (λ g.
                  let c : ℕ = chunk_len answers session p len max sent in
                  let next : u16 (sent + c) ≡ sent + c = ground (arith, e) in
                  after_answer-Cuts (packet answers session p len max sent) packets sent retries _ _
                    (answers k).result
                    (λ ps h. extend sent c ps refl (ground (arith, e)) (ground (arith, e)) (
                      subst (λ (x : ℕ). IsCut p len max x ps) next
                        (notify_loop-IsCut fuel (k + 1) (u16 (sent + c)) 0 ps pos w whole
                          (ground (arith, e)) h)))
                    (notify_loop-IsCut fuel (k + 1) sent (retries + 1) packets pos w whole
                      inside))))
