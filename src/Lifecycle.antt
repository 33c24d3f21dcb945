-- ===== src/Lifecycle.antt =====
-- common/lifecycle/agcore_lifecycle.c. A boot reason is its number, since any number can stand in the
-- record that is read; the record is laid out as on the ESP32: little endian, four bytes for the
-- enumeration, and one byte of padding, which is 0, before the code.
pub mod Record
pub mod Boot
use agcore.Prelude.{
  ℕ, ◌+◌, ◌*◌, ◌≡◌, List, [], ◌∷◌, ◌++◌, Option, none, some, Bool, true, false, not, ◌&&◌, ◌||◌,
  ◌==◌, leb, if◌then◌else◌, u8, u32, ◌>>>◌, get_or, take, replicate,
}
use agcore.Platform.{EspErr, esp_ok, is_ok, is_nvs_not_found, no_mem}
use agcore.Utils.Check.{Platform, crc16_calc}
use agcore.Persist.{NvsOps, coredata_read, coredata_write}

-- "life" in ASCII
abbrev pub lifecycle_key : List ℕ
lifecycle_key = 0x6C ∷ 0x69 ∷ 0x66 ∷ 0x65 ∷ []

abbrev pub boot_normal : ℕ
boot_normal = 0

abbrev pub boot_blank : ℕ
boot_blank = 1

abbrev pub boot_factory : ℕ
boot_factory = 2

abbrev pub boot_abnormal : ℕ
boot_abnormal = 3

-- `agcore_lifecycle_data_t`
pub record LifecycleData : Type 0 where
  pub magic : List ℕ
  pub boot_total_count : ℕ
  pub boot_streak_count : ℕ
  pub reset_reason : ℕ
  pub boot_reason : ℕ
  pub reserved : ℕ
  pub crc16 : ℕ

-- The statics.
pub record LifecycleState : Type 0 where
  pub saved : LifecycleData
  pub reason : ℕ
  pub stable_task : Bool

abbrev pub boot_reason_is_valid : ℕ → Bool
boot_reason_is_valid r =
    (r == boot_normal) || (r == boot_blank) || (r == boot_factory) || (r == boot_abnormal)

-- The bytes of the record in memory, and the record that bytes stand for.
abbrev pub le32 : ℕ → List ℕ
le32 v = u8 v ∷ u8 (v >>> 8) ∷ u8 (v >>> 16) ∷ u8 (v >>> 24) ∷ []

abbrev pub checked_bytes : LifecycleData → List ℕ
checked_bytes d =
    d.magic
    ++ (le32 d.boot_total_count
        ++ (le32 d.boot_streak_count
            ++ (le32 d.reset_reason ++ (le32 d.boot_reason ++ (d.reserved ∷ 0 ∷ [])))))

abbrev pub to_bytes : LifecycleData → List ℕ
to_bytes d = checked_bytes d ++ (u8 d.crc16 ∷ u8 (d.crc16 >>> 8) ∷ [])

abbrev pub read_le32 : List ℕ → ℕ → ℕ
read_le32 b i =
    get_or b i 0
    + get_or b (i + 1) 0 * 256
    + get_or b (i + 2) 0 * 65536
    + get_or b (i + 3) 0 * 16777216

abbrev pub from_bytes : List ℕ → LifecycleData
from_bytes b = record {
  magic = take 4 b;
  boot_total_count = read_le32 b 4;
  boot_streak_count = read_le32 b 8;
  reset_reason = read_le32 b 12;
  boot_reason = read_le32 b 16;
  reserved = get_or b 20 0;
  crc16 = get_or b 22 0 + get_or b 23 0 * 256;
}

-- `sizeof(agcore_lifecycle_data_t)`, and the offset of the code
abbrev pub data_size : ℕ
data_size = 24

abbrev pub crc_offset : ℕ
crc_offset = 22

abbrev pub same_bytes : List ℕ → List ℕ → Bool
same_bytes [] [] = true
same_bytes [] (y ∷ ys) = false
same_bytes (x ∷ xs) [] = false
same_bytes (x ∷ xs) (y ∷ ys) = (x == y) && same_bytes xs ys

-- The buffer of the read.
abbrev pub bytes_of : Option (List ℕ) → List ℕ
bytes_of none = []
bytes_of (some b) = b

module _ (platform : Platform) where
  unfoldable pub lifecycle_crc16 : LifecycleData → ℕ
  lifecycle_crc16 d = crc16_calc platform 0xFFFF (checked_bytes d) crc_offset

  unfoldable pub crc_refresh : LifecycleData → LifecycleData
  crc_refresh d = record d { crc16 = lifecycle_crc16 d }

  unfoldable pub data_is_valid : LifecycleData → Bool
  data_is_valid d =
      if not (same_bytes d.magic lifecycle_key) then false else d.crc16 == lifecycle_crc16 d

  unfoldable pub data_default : LifecycleData
  data_default = crc_refresh (record {
    magic = lifecycle_key;
    boot_total_count = 0;
    boot_streak_count = 0;
    reset_reason = 0;
    boot_reason = boot_blank;
    reserved = 0;
    crc16 = 0;
  })

  module _ {N : Type 0} (ops : NvsOps N) where
    unfoldable pub lifecycle_save : N → LifecycleState → N × LifecycleState × EspErr
    lifecycle_save n s =
        let d = crc_refresh (record s.saved { boot_reason = u8 s.reason }) in
        let (n', ret) = coredata_write ops n (some lifecycle_key) (some (to_bytes d)) data_size in
        (n', record s { saved = d }, ret)

    -- What the read gives: an error to return, or the record and the reason to go on with.
    unfoldable pub recover : ℕ → LifecycleData → EspErr → (LifecycleData × ℕ) × EspErr
    recover reason d ret =
        if is_nvs_not_found ret || not (data_is_valid d)
        then ((data_default, boot_blank), esp_ok)
        else if not (is_ok ret)
        then ((d, reason), ret)
        else (
          (d, (if boot_reason_is_valid d.boot_reason then d.boot_reason else boot_normal)),
          esp_ok,
        )

    -- One more boot, with the reset reason and the count that asks for the factory settings.
    unfoldable pub count_boot : ℕ → ℕ → LifecycleData → ℕ → LifecycleState → LifecycleState
    count_boot reset factory_count d reason s =
        let streak = u32 (d.boot_streak_count + 1) in
        record s {
          saved = record d {
            boot_total_count = u32 (d.boot_total_count + 1);
            boot_streak_count = streak;
            reset_reason = u32 reset;
          };
          reason = if leb factory_count streak then boot_factory else reason;
        }

    -- The task that marks the boot as stable later, with the answer to its creation.
    unfoldable pub start_stable_task :
        Bool → N × LifecycleState × EspErr → N × LifecycleState × EspErr
    start_stable_task created (n, s, ret) =
        if not (is_ok ret)
        then (n, s, ret)
        else if s.stable_task
        then (n, s, esp_ok)
        else if created
        then (n, record s { stable_task = true }, esp_ok)
        else (n, s, no_mem)

    unfoldable pub lifecycle_init : ℕ → ℕ → Bool → N → LifecycleState → N × LifecycleState × EspErr
    lifecycle_init reset factory_count created n s =
        let (buf, read) =
          coredata_read ops n (some lifecycle_key) (some (replicate data_size 0)) data_size in
        let ((d, reason), ret) = recover s.reason (from_bytes (bytes_of buf)) read in
        if not (is_ok ret)
        then (n, s, ret)
        else start_stable_task created
            (lifecycle_save n (count_boot reset factory_count d reason s))

    unfoldable pub lifecycle_mark_stable : N → LifecycleState → N × LifecycleState × EspErr
    lifecycle_mark_stable n s =
        lifecycle_save n
          (record s { saved = record s.saved { boot_streak_count = 0 }; reason = boot_normal })

    -- `agcore_lifecycle_stable_task` after its delay.
    unfoldable pub stable_task_run : N → LifecycleState → N × LifecycleState
    stable_task_run n s =
        let (n', s', ret) = lifecycle_mark_stable n s in (n', record s' { stable_task = false })

abbrev pub is_factory_boot : LifecycleState → Bool
is_factory_boot s = (s.reason == boot_factory) || (s.reason == boot_blank)
