-- ===== src/Lifecycle/Record.antt =====
-- common/lifecycle/agcore_lifecycle.c: the record in memory, and its code.
use agcore.Prelude.{
  ℕ, ◌+◌, ◌*◌, ◌<◌, ◌≡◌, refl, ap, sym, subst, List, Bool, true, false, ◌==◌, not, if◌then◌else◌,
  u8, ◌>>>◌, arith,
}
use agcore.Utils.Check.{Platform, esp, host, crc16_calc}
use agcore.Utils.Check.Crc.{crc16_loop-lt}
use agcore.Lifecycle.{
  LifecycleData, lifecycle_key, to_bytes, from_bytes, checked_bytes, lifecycle_crc16, crc_refresh,
  data_is_valid, same_bytes,
}

-- The fields have the widths of the source, and the magic bytes are the key.
pub record IsRecord (d : LifecycleData) : Type 0 where
  pub key : d.magic ≡ lifecycle_key
  pub total : d.boot_total_count < 4294967296
  pub streak : d.boot_streak_count < 4294967296
  pub reset : d.reset_reason < 4294967296
  pub reason : d.boot_reason < 4294967296
  pub code : d.crc16 < 65536

le32_read :
    (v : ℕ)
    → v < 4294967296
    → u8 v + u8 (v >>> 8) * 256 + u8 (v >>> 16) * 65536 + u8 (v >>> 24) * 16777216 ≡ v
le32_read v h = omega arith

le16_read : (v : ℕ) → v < 65536 → u8 v + u8 (v >>> 8) * 256 ≡ v
le16_read v h = omega arith

from-to_fields :
    (t s r b v c : ℕ)
    → t < 4294967296
    → s < 4294967296
    → r < 4294967296
    → b < 4294967296
    → c < 65536
    → let d : LifecycleData = record {
      magic = lifecycle_key;
      boot_total_count = t;
      boot_streak_count = s;
      reset_reason = r;
      boot_reason = b;
      reserved = v;
      crc16 = c;
    } in
      from_bytes (to_bytes d) ≡ d
from-to_fields t s r b v c ht hs hr hb hc =
    rw (le32_read t ht, le32_read s hs, le32_read r hr, le32_read b hb, le16_read c hc) refl

pub from-to_bytes : (d : LifecycleData) → IsRecord d → from_bytes (to_bytes d) ≡ d
from-to_bytes d v =
    subst (λ (m : List ℕ). from_bytes (to_bytes (record d { magic = m })) ≡ record d { magic = m })
      (sym v.key)
      (from-to_fields d.boot_total_count d.boot_streak_count d.reset_reason d.boot_reason d.reserved
        d.crc16 v.total v.streak v.reset v.reason v.code)

pub lifecycle_crc16-lt :
    (platform : Platform) (d : LifecycleData) → lifecycle_crc16 platform d < 65536
unfolding lifecycle_crc16 crc16_calc
lifecycle_crc16-lt (esp rom_crc16_be rom_crc32_le) d = omega arith
lifecycle_crc16-lt host d = crc16_loop-lt 22 (checked_bytes d) 0xFFFF (omega arith)

valid_of : (b : Bool) (x : ℕ) → b ≡ true → (if not b then false else (x == x)) ≡ true
valid_of b x e = ground arith

-- A record whose code was refreshed is valid.
pub data_is_valid-refresh :
    (platform : Platform) (d : LifecycleData)
    → d.magic ≡ lifecycle_key
    → data_is_valid platform (crc_refresh platform d) ≡ true
unfolding data_is_valid crc_refresh lifecycle_crc16
data_is_valid-refresh platform d key =
    valid_of (same_bytes d.magic lifecycle_key) (lifecycle_crc16 platform d)
      (ap (λ (m : List ℕ). same_bytes m lifecycle_key) key)
