-- ===== src/Platform.antt =====
-- platform/espidf: error codes, and the heap behind agcore_malloc and agcore_free.
pub mod Heap
pub mod Queue
use agcore.Prelude.{ℕ, ◌≡◌, ◌≢◌, Bool, true, false, arith}

-- `esp_err_t`: the values that the code tells apart, and any other.
pub data EspErr : Type 0 where
  esp_ok esp_fail no_mem invalid_arg invalid_state not_found not_supported timeout : EspErr
  nvs_not_found : EspErr
  other_err : ℕ → EspErr

abbrev pub is_ok : EspErr → Bool
is_ok r = elim r [ esp_ok ↦ true | other ↦ false ]

pub is_ok-ok : (r : EspErr) → is_ok r ≡ true → r ≡ esp_ok
is_ok-ok r h = ground (arith, h)

pub is_ok-ne : (r : EspErr) → r ≢ esp_ok → is_ok r ≡ false
is_ok-ne r h = ground (arith, h)

abbrev pub is_nvs_not_found : EspErr → Bool
is_nvs_not_found r = elim r [ nvs_not_found ↦ true | other ↦ false ]
