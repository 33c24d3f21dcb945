-- ===== src/Persist/Nvs.antt =====
-- common/persist/agcore_nvs.c: reading what was written.
use agcore.Prelude.{
  ℕ, ◌≡◌, refl, ap, sym, ◌∙◌, List, ◌++◌, some, true, not, length, store, store_front, drop, take,
  length-take, ◌≤◌, arith, if_cases,
}
use agcore.Platform.{EspErr, esp_ok, is_ok, is_ok-ok}
use agcore.Persist.{NvsOps, nvs_check_args, nvs_read_blob, nvs_write_blob}

not_ok_end :
    {N : Type 0} (n after : N) (r : EspErr)
    → not (is_ok r) ≡ true
    → Path (N × EspErr) (n, r) (after, esp_ok)
    → ⊥
not_ok_end n after r bad h =
    let ok : is_ok r ≡ true = ap (λ o. is_ok o.1) h in absurd (ground (arith, ok, bad))

module _ {N : Type 0} (ops : NvsOps N) where
  -- What a write that succeeded went through.
  pub record Written (n : N) (ns key bytes : List ℕ) (len : ℕ) (after : N) : Type 0 where
    pub checked : nvs_check_args (some key) (some bytes) len ≡ esp_ok
    pub set_ok : (ops.set_blob n ns key bytes len).1 ≡ esp_ok
    pub commit_ok : (ops.commit (ops.set_blob n ns key bytes len).0).1 ≡ esp_ok
    pub is_after : after ≡ (ops.commit (ops.set_blob n ns key bytes len).0).0

  pub nvs_write_blob-Written :
      (n after : N) (ns key bytes : List ℕ) (len : ℕ)
      → nvs_write_blob ops n ns (some key) (some bytes) len ≡ (after, esp_ok)
      → Written n ns key bytes len after
  unfolding nvs_write_blob
  nvs_write_blob-Written n after ns key bytes len =
      if_cases Leads (not (is_ok checked)) _ _ (λ e h. absurd (not_ok_end n after checked e h))
        (λ e.
          if_cases Leads (not (is_ok (ops.open_readwrite n ns))) _ _
            (λ f h. absurd (not_ok_end n after (ops.open_readwrite n ns) f h))
            (λ f.
              if_cases Leads (is_ok was_set.1) _ _
                (λ g h. record {
                  checked = is_ok-ok checked (ground (arith, e));
                  set_ok = is_ok-ok was_set.1 g;
                  commit_ok = ap (λ (o : N × EspErr). o.1) h;
                  is_after = sym (ap (λ (o : N × EspErr). o.0) h);
                })
                (λ g h. absurd (not_ok_end was_set.0 after was_set.1 (ground (arith, g)) h))))
    where
      checked : EspErr
      checked = nvs_check_args (some key) (some bytes) len

      was_set : N × EspErr
      was_set = ops.set_blob n ns key bytes len

      Leads : N × EspErr → Type 0
      Leads o = o ≡ (after, esp_ok) → Written n ns key bytes len after

  -- After a write of the first `len` bytes of a buffer that returned ESP_OK, a read of the same key in the
  -- same namespace, with that length and into a buffer with room for it, returns ESP_OK, where the
  -- namespace can be opened: it puts those bytes at the front of the buffer and leaves what is behind.
  pub nvs_read_blob-write :
      (n after : N) (ns key bytes buf : List ℕ) (len : ℕ)
      → nvs_write_blob ops n ns (some key) (some bytes) len ≡ (after, esp_ok)
      → ops.open_readonly after ns ≡ esp_ok
      → len ≤ length bytes
      → len ≤ length buf
      → nvs_read_blob ops after ns (some key) (some buf) len
        ≡ (some (take len bytes ++ drop len buf), esp_ok)
  unfolding nvs_read_blob nvs_check_args
  nvs_read_blob-write n after ns key bytes buf len e opened fits room =
      let w = nvs_write_blob-Written n after ns key bytes len e in
      let size : length (take len bytes) ≡ len = omega (arith, length-take len bytes, fits) in
      let kept : ops.stored after ns key ≡ some (take len bytes) =
        ap (λ (x : N). ops.stored x ns key) w.is_after
        ∙ ops.stored-commit (ops.set_blob n ns key bytes len).0 ns key w.commit_ok
        ∙ ops.staged-set_blob n ns key bytes len fits w.set_ok in
      let got : ops.get_blob after ns key len ≡ (esp_ok, take len bytes) =
        ops.get_blob-stored after ns key (take len bytes) len kept (omega (arith, size)) in
      let front : store buf 0 (take len bytes) ≡ take len bytes ++ drop len buf =
        store_front buf (take len bytes) (omega (arith, size, room))
        ∙ ap (λ (k : ℕ). take len bytes ++ drop k buf) size in
      rw (w.checked, opened, got, front) refl
