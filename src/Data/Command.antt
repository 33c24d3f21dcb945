-- ===== src/Data/Command.antt =====
-- pipe/data/agcore_data_core_cmd.c. The clock of the C library is an argument, and what it documents.
pub mod Payload
pub mod Answers
use agcore.Prelude.{
  ℕ, ◌+◌, ◌-◌, ◌≡◌, List, [], ◌∷◌, ◌++◌, Option, none, some, Bool, true, ◌==◌, ltb, if◌then◌else◌,
  u32, take, drop, store, set, replicate,
}
use agcore.Platform.{EspErr}
use agcore.Platform.Heap.{Heap, Malloc}
use agcore.Utils.Bytes.{put_bytes16, put_bytes32, get_bytes16, get_bytes32}
use agcore.Version.{DeviceState, VersionInfo, device_info_get_bytes}
use agcore.Data.Types.{Data}
use agcore.Data.Queue.{DataState, Transport, data_send}

abbrev pub core_cmd_get_verinfo : ℕ
core_cmd_get_verinfo = 0xAC00

abbrev pub core_cmd_get_devicetime : ℕ
core_cmd_get_devicetime = 0xAC01

abbrev pub core_cmd_set_devicetime : ℕ
core_cmd_set_devicetime = 0xAC02

-- `time` and `settimeofday`, with whether the clock was set.
pub record Clock (W : Type 0) : Type 0 where
  pub time : W → ℕ
  pub settimeofday : ℕ → W → W × Bool
  pub time-settimeofday :
      (ts : ℕ) (w : W) → (settimeofday ts w).1 ≡ true → time (settimeofday ts w).0 ≡ ts

-- `{.link = data->link, .payload_len = sizeof(payload), .payload = payload}`
abbrev pub answer : Data → ℕ → List ℕ → Data
answer d len payload = record { link = d.link; sn = 0; payload_len = len; payload = some payload }

-- A function that writes through a pointer into an array, from index i on.
abbrev pub write_at : List ℕ → ℕ → Option (List ℕ) → List ℕ
write_at buf i none = buf
write_at buf i (some out) = take i buf ++ out

-- The array on the stack, all of whose bytes are written.
unfoldable pub verinfo_payload : DeviceState → VersionInfo → List ℕ
verinfo_payload device ver =
    let cmd = put_bytes16 (replicate 19 0) 0 core_cmd_get_verinfo in
    let info = write_at cmd 2 (device_info_get_bytes device (some (drop 2 cmd)) 8) in
    store (put_bytes16 info 10 ver.version) 12 (take 7 ver.git_hash)

unfoldable pub devicetime_payload : ℕ → List ℕ
devicetime_payload ts = put_bytes32 (put_bytes16 (replicate 6 0) 0 core_cmd_get_devicetime) 2 ts

unfoldable pub set_payload : Bool → List ℕ
set_payload ok = set (put_bytes16 (replicate 3 0) 0 core_cmd_set_devicetime) 2 (if ok then 1 else 0)

module _ {Q W : Type 0} (m : Malloc) (transport : Transport W) (clock : Clock W)
    (device : DeviceState) (ver : VersionInfo) where
  unfoldable pub get_verinfo_handle : DataState Q W → Data → DataState Q W
  get_verinfo_handle s d =
      (data_send m transport s (some (answer d 19 (verinfo_payload device ver)))).0

  unfoldable pub get_devicetime_handle : DataState Q W → Data → DataState Q W
  get_devicetime_handle s d =
      (data_send m transport s
        (some (answer d 6 (devicetime_payload (u32 (clock.time s.world)))))).0

  -- The payload is there; `agcore_core_data_handle` has checked it.
  unfoldable pub set_devicetime_handle : DataState Q W → Data → List ℕ → DataState Q W
  set_devicetime_handle s d payload =
      if ltb d.payload_len 4
      then s
      else let (w, ok) = clock.settimeofday (get_bytes32 payload 0) s.world in
        (data_send m transport (record s { world = w }) (some (answer d 3 (set_payload ok)))).0

  -- The switch on the command; the payload starts behind it.
  unfoldable pub dispatch : DataState Q W → Data → List ℕ → ℕ → DataState Q W
  dispatch s body payload cmd =
      if cmd == core_cmd_get_verinfo
      then get_verinfo_handle s body
      else if cmd == core_cmd_get_devicetime
      then get_devicetime_handle s body
      else if cmd == core_cmd_set_devicetime
      then set_devicetime_handle s body payload
      else s

  unfoldable pub core_data_handle : DataState Q W → Option Data → DataState Q W
  core_data_handle s none = s
  core_data_handle s (some d) = elim d.payload [
    | none ↦ s
    | some p ↦
        if ltb d.payload_len 2
        then s
        else dispatch s (record d { payload = some (drop 2 p); payload_len = d.payload_len - 2 })
            (drop 2 p) (get_bytes16 p 0)
  ]
