-- ===== src/Tests/Command.antt =====
-- common/version and the CORE commands at concrete inputs.
use agcore.Prelude.{ℕ, ◌≡◌, refl, List, [], ◌∷◌, ◌++◌, some, Bool, true, arith}
use agcore.Version.{DeviceState, VersionInfo, device_info_get_bytes}
use agcore.Version.Info.{IsFilled, device_info_get_bytes_lem}
use agcore.Utils.Bytes.{bytes16, bytes32}
use agcore.Data.Queue.{data_send}
use agcore.Data.Command.{Clock, core_data_handle}
use agcore.Data.Command.Payload.{request, reply}
use agcore.Data.Command.Answers.{reaction, core_data_handle-reaction, set_devicetime-get}
use agcore.Tests.Queue.{Outside, wire_transport, gives, state}

abbrev device : DeviceState
device = record {
  info = record { device_type = 0x0102; device_id = 3; fw_version = 0x0100; hw_version = 0x0200 };
  is_set = true;
}

-- "abcdef0"
abbrev ver : VersionInfo
ver = record { version = 0x0105; git_hash = 0x61 ∷ 0x62 ∷ 0x63 ∷ 0x64 ∷ 0x65 ∷ 0x66 ∷ 0x30 ∷ [] }

abbrev set_clock : ℕ → Outside → Outside × Bool
set_clock ts (t, out) = ((ts, out), true)

abbrev clock : Clock Outside
clock = record { time = λ w. w.0; settimeofday = set_clock; time-settimeofday = λ ts w e. refl }

device_info_get_bytes_lem_example :
    (out : List ℕ) × (device_info_get_bytes device (some (1 ∷ 2 ∷ 3 ∷ 4 ∷ 5 ∷ 6 ∷ 7 ∷ 8 ∷ 9 ∷ [])) 8
      ≡ some out)
    × IsFilled device (1 ∷ 2 ∷ 3 ∷ 4 ∷ 5 ∷ 6 ∷ 7 ∷ 8 ∷ 9 ∷ []) 8 out
device_info_get_bytes_lem_example =
    device_info_get_bytes_lem device (1 ∷ 2 ∷ 3 ∷ 4 ∷ 5 ∷ 6 ∷ 7 ∷ 8 ∷ 9 ∷ []) 8 (omega arith)

core_data_handle-reaction_example :
    core_data_handle gives wire_transport clock device ver state
      (some (request 1 7 0xAC00 [] (0x99 ∷ [])))
    ≡ reaction gives wire_transport clock device ver state 1 0xAC00 []
core_data_handle-reaction_example =
    core_data_handle-reaction gives wire_transport clock device ver state 1 7 0xAC00 [] (0x99 ∷ [])
      (omega arith) (omega arith)

set_devicetime-get_example :
    let after =
      core_data_handle gives wire_transport clock device ver state
        (some (request 1 7 0xAC02 (bytes32 0x65A1B2C3 ++ (1 ∷ [])) [])) in
    core_data_handle gives wire_transport clock device ver after (some (request 1 8 0xAC01 [] []))
    ≡ (data_send gives wire_transport after
        (some (reply 1 (bytes16 0xAC01 ++ bytes32 0x65A1B2C3)))).0
set_devicetime-get_example =
    set_devicetime-get gives wire_transport clock device ver state 1 7 8 0x65A1B2C3 (1 ∷ []) [] []
      (omega arith) (omega arith) refl (λ cb bytes n t w e. e)
