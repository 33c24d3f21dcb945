-- ===== src/Persist.antt =====
-- common/persist: agcore_nvs.c, agcore_fs.c and agcore_flash.c. NVS, SPIFFS and the partitions belong to
-- ESP-IDF: the calls on them are arguments, with what is documented of them.
pub mod Nvs
pub mod Flash
use agcore.Prelude.{
  ℕ, ◌≡◌, ◌≢◌, List, [], ◌∷◌, Option, none, some, Bool, true, false, not, ◌||◌, ◌==◌, ltb,
  if◌then◌else◌, length, store, take, ◌≤◌,
}
use agcore.Platform.{EspErr, esp_ok, is_ok, invalid_arg, not_found, not_supported}

-- "agcore" and "userdata" in ASCII, and the longest key.
abbrev pub core_namespace : List ℕ
core_namespace = 0x61 ∷ 0x67 ∷ 0x63 ∷ 0x6F ∷ 0x72 ∷ 0x65 ∷ []

abbrev pub user_namespace : List ℕ
user_namespace = 0x75 ∷ 0x73 ∷ 0x65 ∷ 0x72 ∷ 0x64 ∷ 0x61 ∷ 0x74 ∷ 0x61 ∷ []

abbrev pub nvs_key_max_len : ℕ
nvs_key_max_len = 15

-- The calls on an NVS of type N with a namespace that is open: the answer of opening it, the bytes of a
-- blob for a buffer of a length, and the writing calls, which take effect with `nvs_commit`.
pub record NvsOps (N : Type 0) : Type 0 where
  pub open_readonly : N → List ℕ → EspErr
  pub open_readwrite : N → List ℕ → EspErr
  pub get_blob : N → List ℕ → List ℕ → ℕ → EspErr × List ℕ
  pub set_blob : N → List ℕ → List ℕ → List ℕ → ℕ → N × EspErr
  pub erase_key : N → List ℕ → List ℕ → N × EspErr
  pub commit : N → N × EspErr
  -- What the writing calls have set under a key of a namespace, and what is stored there.
  pub staged : N → List ℕ → List ℕ → Option (List ℕ)
  pub stored : N → List ℕ → List ℕ → Option (List ℕ)
  pub staged-set_blob :
      (n : N) (ns key bytes : List ℕ) (len : ℕ)
      → len ≤ length bytes
      → (set_blob n ns key bytes len).1 ≡ esp_ok
      → staged (set_blob n ns key bytes len).0 ns key ≡ some (take len bytes)
  pub stored-commit :
      (n : N) (ns key : List ℕ)
      → (commit n).1 ≡ esp_ok
      → stored (commit n).0 ns key ≡ staged n ns key
  pub get_blob-stored :
      (n : N) (ns key bytes : List ℕ) (len : ℕ)
      → stored n ns key ≡ some bytes
      → length bytes ≤ len
      → get_blob n ns key len ≡ (esp_ok, bytes)

-- A key is the list of its characters, and a buffer has a length that is given with it.
unfoldable pub nvs_check_args : Option (List ℕ) → Option (List ℕ) → ℕ → EspErr
nvs_check_args none buf len = invalid_arg
nvs_check_args (some key) none len = invalid_arg
nvs_check_args (some key) (some buf) len =
    if (len == 0) || ltb nvs_key_max_len (length key) then invalid_arg else esp_ok

module _ {N : Type 0} (ops : NvsOps N) where
  -- The buffer after the call, and the result.
  unfoldable pub nvs_read_blob :
      N → List ℕ → Option (List ℕ) → Option (List ℕ) → ℕ → Option (List ℕ) × EspErr
  nvs_read_blob n ns none buf len = (buf, invalid_arg)
  nvs_read_blob n ns (some key) none len = (none, invalid_arg)
  nvs_read_blob n ns (some key) (some buf) len =
      let checked = nvs_check_args (some key) (some buf) len in
      if not (is_ok checked)
      then (some buf, checked)
      else let opened = ops.open_readonly n ns in
        if not (is_ok opened)
        then (some buf, opened)
        else let (ret, bytes) = ops.get_blob n ns key len in (some (store buf 0 bytes), ret)

  -- A blob that was set is committed.
  abbrev pub commit_if_ok : N × EspErr → N × EspErr
  commit_if_ok (n, ret) = if is_ok ret then ops.commit n else (n, ret)

  unfoldable pub nvs_write_blob : N → List ℕ → Option (List ℕ) → Option (List ℕ) → ℕ → N × EspErr
  nvs_write_blob n ns none buf len = (n, invalid_arg)
  nvs_write_blob n ns (some key) none len = (n, invalid_arg)
  nvs_write_blob n ns (some key) (some buf) len =
      let checked = nvs_check_args (some key) (some buf) len in
      if not (is_ok checked)
      then (n, checked)
      else let opened = ops.open_readwrite n ns in
        if not (is_ok opened) then (n, opened) else commit_if_ok (ops.set_blob n ns key buf len)

  unfoldable pub nvs_erase_key : N → List ℕ → Option (List ℕ) → N × EspErr
  nvs_erase_key n ns none = (n, invalid_arg)
  nvs_erase_key n ns (some key) =
      if ltb nvs_key_max_len (length key)
      then (n, invalid_arg)
      else let opened = ops.open_readwrite n ns in
        if not (is_ok opened) then (n, opened) else commit_if_ok (ops.erase_key n ns key)

  abbrev pub coredata_read : N → Option (List ℕ) → Option (List ℕ) → ℕ → Option (List ℕ) × EspErr
  coredata_read n key buf len = nvs_read_blob n core_namespace key buf len

  abbrev pub coredata_write : N → Option (List ℕ) → Option (List ℕ) → ℕ → N × EspErr
  coredata_write n key buf len = nvs_write_blob n core_namespace key buf len

  abbrev pub coredata_erase : N → Option (List ℕ) → N × EspErr
  coredata_erase n key = nvs_erase_key n core_namespace key

  abbrev pub userdata_read : N → Option (List ℕ) → Option (List ℕ) → ℕ → Option (List ℕ) × EspErr
  userdata_read n key buf len = nvs_read_blob n user_namespace key buf len

  abbrev pub userdata_write : N → Option (List ℕ) → Option (List ℕ) → ℕ → N × EspErr
  userdata_write n key buf len = nvs_write_blob n user_namespace key buf len

  abbrev pub userdata_erase : N → Option (List ℕ) → N × EspErr
  userdata_erase n key = nvs_erase_key n user_namespace key

-- The file system: whether it is in the build, whether it is mounted, and the answer of SPIFFS.
unfoldable pub fs_mount : Bool → EspErr → Bool → Bool × EspErr
fs_mount enabled register mounted =
    if not enabled
    then (mounted, not_supported)
    else if mounted
    then (mounted, esp_ok)
    else ((if is_ok register then true else mounted), register)

unfoldable pub fs_unmount : Bool → EspErr → Bool → Bool × EspErr
fs_unmount enabled unregister mounted =
    if not enabled
    then (mounted, not_supported)
    else if not mounted
    then (mounted, esp_ok)
    else ((if is_ok unregister then false else mounted), unregister)
