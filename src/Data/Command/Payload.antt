-- ===== src/Data/Command/Payload.antt =====
-- pipe/data/agcore_data_core_cmd.c: the payloads of the answers, and what a request is.
use agcore.Prelude.{
  ℕ, ◌+◌, ◌≤◌, ◌<◌, ◌≡◌, refl, ap, sym, ◌∙◌, List, [], ◌∷◌, ◌++◌, some, Bool, true, false, length,
  get_or-append_left, length-append, length-take_le, take, arith, if◌then◌else◌, seven_bytes,
  if_cases,
}
use agcore.Utils.Bytes.{
  put_bytes16, put_bytes32, get_bytes16, get_bytes32, bytes16, bytes32, get_bytes16_lem,
  get_bytes32_lem,
}
use agcore.Version.{
  DeviceInfo, DeviceState, VersionInfo, device_info_get_bytes, fill_loop, put_info,
}
use agcore.Version.Info.{info_bytes}
use agcore.Data.Types.{Data}
use agcore.Data.Command.{answer, verinfo_payload, devicetime_payload, set_payload}

-- The bytes that stand for the device information.
abbrev pub device_bytes : DeviceState → List ℕ
device_bytes device =
    if device.is_set
    then info_bytes device.info []
    else 0x00 ∷ 0xFF ∷ 0x00 ∷ 0xFF ∷ 0x00 ∷ 0xFF ∷ 0x00 ∷ 0xFF ∷ []

-- The answer to a request for the version, whatever the flag.
verinfo_of :
    (info : DeviceInfo) (is_set : Bool) (version : ℕ) (hash : List ℕ)
    → 7 ≤ length hash
    → let device : DeviceState = record { info = info; is_set = is_set } in
      verinfo_payload device (record { version = version; git_hash = hash })
      ≡ bytes16 0xAC00 ++ (device_bytes device ++ (bytes16 version ++ take 7 hash))
unfolding verinfo_payload device_info_get_bytes fill_loop put_info put_bytes16
verinfo_of info true version hash h =
    seven_bytes
      (λ (l : List ℕ).
        let device : DeviceState = record { info = info; is_set = true } in
        verinfo_payload device (record { version = version; git_hash = l })
        ≡ bytes16 0xAC00 ++ (device_bytes device ++ (bytes16 version ++ take 7 l)))
      hash (λ a b c d e f g rest. refl) h
verinfo_of info false version hash h =
    seven_bytes
      (λ (l : List ℕ).
        let device : DeviceState = record { info = info; is_set = false } in
        verinfo_payload device (record { version = version; git_hash = l })
        ≡ bytes16 0xAC00 ++ (device_bytes device ++ (bytes16 version ++ take 7 l)))
      hash (λ a b c d e f g rest. refl) h

verinfo_payload_lem :
    (device : DeviceState) (ver : VersionInfo)
    → 7 ≤ length ver.git_hash
    → verinfo_payload device ver
      ≡ bytes16 0xAC00 ++ (device_bytes device ++ (bytes16 ver.version ++ take 7 ver.git_hash))
verinfo_payload_lem device ver h = verinfo_of device.info device.is_set ver.version ver.git_hash h

pub devicetime_payload_lem : (ts : ℕ) → devicetime_payload ts ≡ bytes16 0xAC01 ++ bytes32 ts
unfolding devicetime_payload put_bytes16 put_bytes32
devicetime_payload_lem ts = refl

set_payload_lem : (ok : Bool) → set_payload ok ≡ bytes16 0xAC02 ++ ((if ok then 1 else 0) ∷ [])
unfolding set_payload put_bytes16
set_payload_lem ok = refl

-- A message with a command, the bytes of its body, and what stands in the frame behind them.
abbrev pub request : ℕ → ℕ → ℕ → List ℕ → List ℕ → Data
request link sn cmd body behind = record {
  link = link;
  sn = sn;
  payload_len = length body + 2;
  payload = some (bytes16 cmd ++ (body ++ behind));
}

-- An answer on a link.
abbrev pub reply : ℕ → List ℕ → Data
reply link payload = record {
  link = link;
  sn = 0;
  payload_len = length payload;
  payload = some payload;
}

pub get_bytes16-bytes16 :
    (val : ℕ) (rest : List ℕ) → val < 65536 → get_bytes16 (bytes16 val ++ rest) 0 ≡ val
get_bytes16-bytes16 val rest h =
    omega (arith, get_bytes16_lem (bytes16 val ++ rest) 0 (omega arith) (omega arith))

pub get_bytes32-bytes32 :
    (val : ℕ) (rest : List ℕ) → val < 4294967296 → get_bytes32 (bytes32 val ++ rest) 0 ≡ val
get_bytes32-bytes32 val rest h =
    omega (arith, get_bytes32_lem (bytes32 val ++ rest) 0 (omega arith) (omega arith) (omega arith))

pub get_bytes32-front :
    (body behind : List ℕ) → 4 ≤ length body → get_bytes32 (body ++ behind) 0 ≡ get_bytes32 body 0
unfolding get_bytes32
get_bytes32-front body behind h = rw (
  get_or-append_left 0 body behind 0 (omega arith),
  get_or-append_left 1 body behind 0 (omega arith),
  get_or-append_left 2 body behind 0 (omega arith),
  get_or-append_left 3 body behind 0 (omega arith),
)

pub reply_verinfo :
    (device : DeviceState) (ver : VersionInfo) (d : Data)
    → 7 ≤ length ver.git_hash
    → answer d 19 (verinfo_payload device ver)
      ≡ reply d.link
          (bytes16 0xAC00 ++ (device_bytes device ++ (bytes16 ver.version ++ take 7 ver.git_hash)))
reply_verinfo device ver d hash =
    let eight : length (device_bytes device) ≡ 8 =
      if_cases (λ (l : List ℕ). length l ≡ 8) device.is_set _ _ (λ e. refl) (λ e. refl) in
    let p =
      bytes16 0xAC00 ++ (device_bytes device ++ (bytes16 ver.version ++ take 7 ver.git_hash)) in
    let n : length p ≡ 19 = omega (
      arith,
      eight,
      length-append (device_bytes device) (bytes16 ver.version ++ take 7 ver.git_hash),
      length-take_le 7 ver.git_hash hash,
    ) in
    ap (answer d 19) (verinfo_payload_lem device ver hash) ∙ ap (λ (k : ℕ). answer d k p) (sym n)
