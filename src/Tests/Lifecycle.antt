-- ===== src/Tests/Lifecycle.antt =====
-- common/persist and common/lifecycle at concrete inputs.
use agcore.Prelude.{ℕ, ◌≡◌, refl, List, [], ◌∷◌, Option, none, take, ap, some, true, false, arith}
use agcore.Platform.{esp_ok}
use agcore.Utils.Check.{host}
use agcore.Persist.{NvsOps, nvs_check_args, nvs_read_blob, nvs_write_blob, core_namespace}
use agcore.Persist.Nvs.{nvs_read_blob-write}
use agcore.Lifecycle.{
  LifecycleState, crc_refresh, lifecycle_key, boot_normal, boot_blank, lifecycle_save,
  lifecycle_init, to_bytes,
}
use agcore.Lifecycle.Record.{IsRecord}
use agcore.Lifecycle.Boot.{lifecycle_init-save, saved_record, NextBoot}

-- What was set and not yet committed, and what was committed.
abbrev Store : Type 0
Store = List ℕ × List ℕ

abbrev held : Option (List ℕ) → List ℕ
held none = []
held (some bytes) = bytes

abbrev store_ops : NvsOps Store
store_ops = record {
  open_readonly = λ n ns. esp_ok;
  open_readwrite = λ n ns. esp_ok;
  get_blob = λ n ns key len. (esp_ok, n.1);
  set_blob = λ n ns key bytes len. ((take len bytes, n.1), esp_ok);
  erase_key = λ n ns key. (([], n.1), esp_ok);
  commit = λ n. ((n.0, n.0), esp_ok);
  staged = λ n ns key. some n.0;
  stored = λ n ns key. some n.1;
  staged-set_blob = λ n ns key bytes len h s. refl;
  stored-commit = λ n ns key c. refl;
  get_blob-stored = λ n ns key bytes len e h. ap (λ (o : Option (List ℕ)). (esp_ok, held o)) e;
}

write_run :
    nvs_write_blob store_ops ([], []) core_namespace (some (0x6B ∷ [])) (some (1 ∷ 2 ∷ 3 ∷ [])) 2
    ≡ ((1 ∷ 2 ∷ [], 1 ∷ 2 ∷ []), esp_ok)
unfolding nvs_write_blob nvs_check_args
write_run = refl

nvs_read_blob-write_example :
    nvs_read_blob store_ops
      (1 ∷ 2 ∷ [], 1 ∷ 2 ∷ [])
      core_namespace
      (some (0x6B ∷ []))
      (some (7 ∷ 8 ∷ 9 ∷ []))
      2
    ≡ (some (1 ∷ 2 ∷ 9 ∷ []), esp_ok)
nvs_read_blob-write_example =
    nvs_read_blob-write store_ops ([], []) (1 ∷ 2 ∷ [], 1 ∷ 2 ∷ []) core_namespace (0x6B ∷ [])
      (1 ∷ 2 ∷ 3 ∷ []) (7 ∷ 8 ∷ 9 ∷ []) 2 write_run refl (omega arith) (omega arith)

abbrev running : LifecycleState
running = record {
  saved = record {
    magic = lifecycle_key;
    boot_total_count = 11;
    boot_streak_count = 2;
    reset_reason = 1;
    boot_reason = boot_blank;
    reserved = 0;
    crc16 = 0;
  };
  reason = boot_blank;
  stable_task = true;
}

abbrev started : LifecycleState
started = record { saved = running.saved; reason = boot_normal; stable_task = false }

running-IsRecord : IsRecord running.saved
running-IsRecord = record {
  key = refl;
  total = omega arith;
  streak = omega arith;
  reset = omega arith;
  reason = omega arith;
  code = omega arith;
}

abbrev after_save : Store
after_save =
    (to_bytes (saved_record host store_ops running), to_bytes (saved_record host store_ops running))

save_run :
    lifecycle_save host store_ops ([], []) running
    ≡ (after_save, record running { saved = saved_record host store_ops running }, esp_ok)
unfolding lifecycle_save nvs_write_blob nvs_check_args crc_refresh
save_run = refl

lifecycle_init-save_example :
    NextBoot host store_ops 4 5 running after_save
      (lifecycle_init host store_ops 4 5 true after_save started)
lifecycle_init-save_example =
    lifecycle_init-save host store_ops ([], []) after_save running
      (record running { saved = saved_record host store_ops running }) started 4 5 true
      running-IsRecord save_run refl
