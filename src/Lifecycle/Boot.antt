-- ===== src/Lifecycle/Boot.antt =====
-- common/lifecycle/agcore_lifecycle.c: a boot goes on from what the one before saved.
use agcore.Prelude.{
  ℕ, ◌≡◌, refl, ap, sym, subst, ◌∙◌, List, Option, some, Bool, true, false, not, if◌then◌else◌, u8,
  u32, leb, ◌+◌, ◌⊎◌, inl, inr, if_cases, length, replicate, arith, append-nil, take, take_eq_self,
}
use agcore.Platform.{EspErr, esp_ok, no_mem, is_ok}
use agcore.Utils.Check.{Platform}
use agcore.Persist.{NvsOps, core_namespace, coredata_read, coredata_write}
use agcore.Persist.Nvs.{nvs_read_blob-write}
use agcore.Lifecycle.{
  LifecycleData, LifecycleState, lifecycle_key, to_bytes, from_bytes, crc_refresh, data_is_valid,
  boot_reason_is_valid, boot_normal, boot_factory, lifecycle_save, recover, count_boot,
  start_stable_task, lifecycle_init, bytes_of,
}
use agcore.Lifecycle.Record.{IsRecord, from-to_bytes, lifecycle_crc16-lt, data_is_valid-refresh}

module _ (platform : Platform) {N : Type 0} (ops : NvsOps N) where
  abbrev Out : Type 0
  Out = N × LifecycleState × EspErr

  -- The record that a save leaves.
  abbrev pub saved_record : LifecycleState → LifecycleData
  saved_record s = crc_refresh platform (record s.saved { boot_reason = u8 s.reason })

  saved_record-IsRecord : (s : LifecycleState) → IsRecord s.saved → IsRecord (saved_record s)
  unfolding crc_refresh
  saved_record-IsRecord s v = record {
    key = v.key;
    total = v.total;
    streak = v.streak;
    reset = v.reset;
    reason = omega arith;
    code = lifecycle_crc16-lt platform (record s.saved { boot_reason = u8 s.reason });
  }

  -- What a save that succeeded wrote, and left.
  save_write :
      (n n' : N) (s s' : LifecycleState)
      → lifecycle_save platform ops n s ≡ (n', s', esp_ok)
      → coredata_write ops n (some lifecycle_key) (some (to_bytes (saved_record s))) 24
        ≡ (n', esp_ok)
  unfolding lifecycle_save
  save_write n n' s s' e = ap (λ (o : Out). (o.0, o.2)) e

  recover_saved :
      (s : LifecycleState) (reason : ℕ)
      → s.saved.magic ≡ lifecycle_key
      → recover platform ops reason (saved_record s) esp_ok ≡ (
        (saved_record s, (if boot_reason_is_valid (u8 s.reason) then u8 s.reason else boot_normal)),
        esp_ok,
      )
  unfolding recover crc_refresh
  recover_saved s reason key =
      let valid : data_is_valid platform (saved_record s) ≡ true =
        data_is_valid-refresh platform (record s.saved { boot_reason = u8 s.reason }) key in
      rw valid refl

  lifecycle_init-resumes :
      (n n' : N) (s s' s0 : LifecycleState) (reset factory_count : ℕ) (created : Bool)
      → IsRecord s.saved
      → lifecycle_save platform ops n s ≡ (n', s', esp_ok)
      → ops.open_readonly n' core_namespace ≡ esp_ok
      → lifecycle_init platform ops reset factory_count created n' s0
        ≡ start_stable_task platform ops created (
            lifecycle_save platform ops n' (
              count_boot platform ops reset factory_count
                (saved_record s)
                (if boot_reason_is_valid (u8 s.reason) then u8 s.reason else boot_normal)
                s0))
  unfolding lifecycle_init
  lifecycle_init-resumes n n' s s' s0 reset factory_count created v e opened =
      ap
        (λ (o : Option (List ℕ) × EspErr).
          finish (recover platform ops s0.reason (from_bytes (bytes_of o.0)) o.1))
        read
      ∙ ap (λ (d : LifecycleData). finish (recover platform ops s0.reason d esp_ok))
          (from-to_bytes d dv)
      ∙ ap finish (recover_saved s s0.reason v.key)
    where
      d : LifecycleData
      d = saved_record s

      dv : IsRecord d
      dv = saved_record-IsRecord s v

      size : length (to_bytes d) ≡ 24
      size = ap (λ (m : List ℕ). length (to_bytes (record d { magic = m }))) dv.key

      read :
          coredata_read ops n' (some lifecycle_key) (some (replicate 24 0)) 24
          ≡ (some (to_bytes d), esp_ok)
      read =
          nvs_read_blob-write ops n n' core_namespace lifecycle_key (to_bytes d) (replicate 24 0) 24
            (save_write n n' s s' e) opened (omega (arith, size)) (omega arith)
          ∙ ap (λ (l : List ℕ). (some l, esp_ok))
              (append-nil (take 24 (to_bytes d))
                ∙ take_eq_self 24 (to_bytes d) (omega (arith, size)))

      finish : (LifecycleData × ℕ) × EspErr → Out
      finish o =
          if not (is_ok o.1)
          then (n', s0, o.1)
          else start_stable_task platform ops created (
              lifecycle_save platform ops n'
                (count_boot platform ops reset factory_count o.0.0 o.0.1 s0))

  -- What a boot leaves that goes on from the record of `s`: the counts and reasons in the statics, the
  -- record that NVS was given, the result and the task.
  pub record NextBoot (reset factory_count : ℕ) (s : LifecycleState) (n' : N) (o : Out)
      : Type 0 where
    pub total : o.1.saved.boot_total_count ≡ u32 (s.saved.boot_total_count + 1)
    pub streak : o.1.saved.boot_streak_count ≡ u32 (s.saved.boot_streak_count + 1)
    pub reset_reason : o.1.saved.reset_reason ≡ u32 reset
    pub reason : o.1.reason ≡ (
        if leb factory_count (u32 (s.saved.boot_streak_count + 1))
        then boot_factory
        else if boot_reason_is_valid (u8 s.reason)
        then u8 s.reason
        else boot_normal)
    pub saved_reason : o.1.saved.boot_reason ≡ u8 o.1.reason
    pub valid : data_is_valid platform o.1.saved ≡ true
    pub written :
        o.0 ≡ (coredata_write ops n' (some lifecycle_key) (some (to_bytes o.1.saved)) 24).0
    pub result :
        (o.2 ≡ (coredata_write ops n' (some lifecycle_key) (some (to_bytes o.1.saved)) 24).1)
        ⊎ (is_ok (coredata_write ops n' (some lifecycle_key) (some (to_bytes o.1.saved)) 24).1
            ≡ true)
    pub task : (is_ok o.2 ≡ false) ⊎ (o.1.stable_task ≡ true)

  module _ (reset factory_count : ℕ) (s s0 : LifecycleState) (n' : N)
      (key : s.saved.magic ≡ lifecycle_key) where
    abbrev resumed : LifecycleState
    resumed =
        count_boot platform ops reset factory_count (saved_record s)
          (if boot_reason_is_valid (u8 s.reason) then u8 s.reason else boot_normal) s0

    abbrev write_out : N × EspErr
    write_out =
        coredata_write ops n' (some lifecycle_key) (some (to_bytes (saved_record resumed))) 24

    -- The save is made, whatever becomes of the task.
    saved-NextBoot :
        (task : Bool) (ret : EspErr)
        → (ret ≡ write_out.1) ⊎ (is_ok write_out.1 ≡ true)
        → (is_ok ret ≡ false) ⊎ (task ≡ true)
        → NextBoot reset factory_count s n'
            (write_out.0, record resumed { saved = saved_record resumed; stable_task = task }, ret)
    unfolding count_boot crc_refresh
    saved-NextBoot task ret result done = record {
      total = refl;
      streak = refl;
      reset_reason = refl;
      reason = refl;
      saved_reason = refl;
      valid =
          data_is_valid-refresh platform (record resumed.saved { boot_reason = u8 resumed.reason })
            key;
      written = refl;
      result = result;
      task = done;
    }

    resumed-NextBoot :
        (created : Bool)
        → NextBoot reset factory_count s n'
            (start_stable_task platform ops created (lifecycle_save platform ops n' resumed))
    unfolding start_stable_task lifecycle_save
    resumed-NextBoot created =
        let t : LifecycleState = record resumed { saved = saved_record resumed } in
        let made : LifecycleState = record t { stable_task = true } in
        let Next : Out → Type 0 = NextBoot reset factory_count s n' in
        let n'' = write_out.0 in
        let rest : Out =
          if t.stable_task
          then (n'', t, esp_ok)
          else if created
          then (n'', made, esp_ok)
          else (n'', t, no_mem) in
        if_cases Next (not (is_ok write_out.1)) (n'', t, write_out.1) rest
          (λ failed.
            saved-NextBoot t.stable_task write_out.1 (inl refl) (inl (ground (arith, failed))))
          (λ wrote.
            let ok : is_ok write_out.1 ≡ true = ground (arith, wrote) in
            if_cases Next t.stable_task (n'', t, esp_ok)
              (if created then (n'', made, esp_ok) else (n'', t, no_mem))
              (λ there. saved-NextBoot t.stable_task esp_ok (inr ok) (inr there))
              (λ missing.
                if_cases Next created (n'', made, esp_ok) (n'', t, no_mem)
                  (λ done. saved-NextBoot true esp_ok (inr ok) (inr refl))
                  (λ failed. saved-NextBoot t.stable_task no_mem (inr ok) (inl refl))))

  -- After a save that returned ESP_OK of a record with the key and the widths of the source, the next boot,
  -- in whatever state its statics are, goes on from the saved record where NVS opens. Both of its counts are
  -- one more than the saved ones, the reset reason is that of the boot, and its reason is BOOT_FACTORY where
  -- the boots in a row reach the count for it, and otherwise the saved one, or BOOT_NORMAL where that is
  -- none of the four. It writes a valid record of all this to NVS, returns an error of that write, and has
  -- the task that marks the boot as stable wherever it returns ESP_OK.
  pub lifecycle_init-save :
      (n n' : N) (s s' s0 : LifecycleState) (reset factory_count : ℕ) (created : Bool)
      → IsRecord s.saved
      → lifecycle_save platform ops n s ≡ (n', s', esp_ok)
      → ops.open_readonly n' core_namespace ≡ esp_ok
      → NextBoot reset factory_count s n'
          (lifecycle_init platform ops reset factory_count created n' s0)
  lifecycle_init-save n n' s s' s0 reset factory_count created v e opened =
      subst (NextBoot reset factory_count s n')
        (sym (lifecycle_init-resumes n n' s s' s0 reset factory_count created v e opened))
        (resumed-NextBoot reset factory_count s s0 n' v.key created)
