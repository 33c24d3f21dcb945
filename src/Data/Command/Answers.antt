-- ===== src/Data/Command/Answers.antt =====
-- pipe/data/agcore_data_core_cmd.c: what the commands answer.
use agcore.Prelude.{
  ℕ, ◌+◌, ◌-◌, ◌≤◌, ◌<◌, ◌≡◌, refl, ap, ◌∙◌, List, [], ◌∷◌, ◌++◌, some, true, false, length, take,
  arith, if◌then◌else◌, ◌==◌, ltb, u32, Bool-cases, if_congr, leb, ◌&&◌, inl, inr,
}
use agcore.Platform.Heap.{Malloc}
use agcore.Utils.Bytes.{put_bytes16, get_bytes32, bytes16, bytes32}
use agcore.Version.{DeviceState, VersionInfo}
use agcore.Data.Types.{Data}
use agcore.Data.Queue.{DataState, Transport, data_send}
use agcore.Data.Queue.Send.{data_send-world}
use agcore.Data.Command.{
  Clock, answer, set_payload, get_verinfo_handle, get_devicetime_handle, set_devicetime_handle,
  dispatch, core_data_handle,
}
use agcore.Data.Command.Payload.{
  device_bytes, devicetime_payload_lem, request, reply, get_bytes16-bytes16, get_bytes32-bytes32,
  get_bytes32-front, reply_verinfo,
}

module _ {Q W : Type 0} (m : Malloc) (transport : Transport W) (clock : Clock W)
    (device : DeviceState) (ver : VersionInfo) where
  abbrev sent : DataState Q W → Data → DataState Q W
  sent s d = (data_send m transport s (some d)).0

  opened :
      (s : DataState Q W) (link sn cmd : ℕ) (body behind : List ℕ)
      → cmd < 65536
      → core_data_handle m transport clock device ver s (some (request link sn cmd body behind))
        ≡ dispatch m transport clock device ver s
            (record {
              link = link;
              sn = sn;
              payload_len = length body;
              payload = some (body ++ behind);
            })
            (body ++ behind)
            cmd
  unfolding core_data_handle
  opened s link sn cmd body behind lt =
      let long : ltb (length body + 2) 2 ≡ false = ground arith in
      let n : length body + 2 - 2 ≡ length body = omega arith in
      rw (long, n, get_bytes16-bytes16 cmd (body ++ behind) lt) refl

  -- The state after the clock was set, or was not.
  abbrev pub reset : DataState Q W → ℕ → DataState Q W
  reset s ts = record s { world = (clock.settimeofday ts s.world).0 }

  abbrev set_reaction : DataState Q W → ℕ → ℕ → DataState Q W
  set_reaction s link ts =
      sent (reset s ts)
        (reply link (bytes16 0xAC02 ++ ((if (clock.settimeofday ts s.world).1 then 1 else 0) ∷ [])))

  -- What the wire shows of a command with a body.
  abbrev pub reaction : DataState Q W → ℕ → ℕ → List ℕ → DataState Q W
  reaction s link cmd body =
      if cmd == 0xAC00
      then sent s (
          reply link (
            bytes16 0xAC00
            ++ (device_bytes device ++ (bytes16 ver.version ++ take 7 ver.git_hash))))
      else if cmd == 0xAC01
      then sent s (reply link (bytes16 0xAC01 ++ bytes32 (u32 (clock.time s.world))))
      else if (cmd == 0xAC02) && leb 4 (length body)
      then set_reaction s link (get_bytes32 body 0)
      else s

  set_devicetime_handle-reaction :
      (s : DataState Q W) (link sn : ℕ) (body behind : List ℕ)
      → set_devicetime_handle m transport clock device ver s
          (record {
            link = link;
            sn = sn;
            payload_len = length body;
            payload = some (body ++ behind);
          })
          (body ++ behind)
        ≡ (if leb 4 (length body) then set_reaction s link (get_bytes32 body 0) else s)
  unfolding set_devicetime_handle set_payload put_bytes16
  set_devicetime_handle-reaction s link sn body behind = elim (Bool-cases (leb 4 (length body))) [
    | inl e ↦
        let long : ltb (length body) 4 ≡ false = ground arith in
        rw (e, long, get_bytes32-front body behind (ground arith)) refl
    | inr e ↦ let short : ltb (length body) 4 ≡ true = ground arith in rw (e, short) refl
  ]

  -- A request is answered on the link it came from: GET_VERINFO by the command, the eight bytes of the
  -- device information, the version and seven bytes of the hash; GET_DEVICETIME by the command and the
  -- time's low 32 bits; SET_DEVICETIME, where its body has four bytes, by the command and whether the clock
  -- took them. Any other request changes nothing, and what stands behind the body plays no part.
  pub core_data_handle-reaction :
      (s : DataState Q W) (link sn cmd : ℕ) (body behind : List ℕ)
      → cmd < 65536
      → 7 ≤ length ver.git_hash
      → core_data_handle m transport clock device ver s (some (request link sn cmd body behind))
        ≡ reaction s link cmd body
  unfolding dispatch get_verinfo_handle get_devicetime_handle
  core_data_handle-reaction s link sn cmd body behind lt hash =
      opened s link sn cmd body behind lt
      ∙ if_congr (cmd == 0xAC00) (λ e. ap (sent s) (reply_verinfo device ver opened_data hash))
          (λ e.
            if_congr (cmd == 0xAC01)
              (λ f.
                ap (λ (p : List ℕ). sent s (answer opened_data 6 p))
                  (devicetime_payload_lem (u32 (clock.time s.world))))
              (λ f. elim (Bool-cases (cmd == 0xAC02)) [
                | inl g ↦ rw g (set_devicetime_handle-reaction s link sn body behind)
                | inr g ↦ rw g refl
              ]))
    where
      opened_data : Data
      opened_data = record {
        link = link;
        sn = sn;
        payload_len = length body;
        payload = some (body ++ behind);
      }

  -- Where the clock takes the time and sending leaves the clock alone, a time that is set is the time that
  -- is read: after SET_DEVICETIME, GET_DEVICETIME is answered by the bytes that were set.
  pub set_devicetime-get :
      (s : DataState Q W) (link sn sn' ts : ℕ) (more behind behind' : List ℕ)
      → ts < 4294967296
      → 7 ≤ length ver.git_hash
      → (clock.settimeofday ts s.world).1 ≡ true
      → ((cb : ℕ) (bytes : List ℕ) (n t : ℕ) (w : W)
          → clock.time w ≡ t
          → clock.time (transport cb bytes n w).0 ≡ t)
      → let after =
          core_data_handle m transport clock device ver s
            (some (request link sn 0xAC02 (bytes32 ts ++ more) behind)) in
        core_data_handle m transport clock device ver after
          (some (request link sn' 0xAC01 [] behind'))
        ≡ sent after (reply link (bytes16 0xAC01 ++ bytes32 ts))
  set_devicetime-get s link sn sn' ts more behind behind' lt hash ok keeps =
      core_data_handle-reaction after link sn' 0xAC01 [] behind' (omega arith) hash
      ∙ ap (λ (t : ℕ). sent after (reply link (bytes16 0xAC01 ++ bytes32 t))) time
    where
      body : List ℕ
      body = bytes32 ts ++ more

      after : DataState Q W
      after =
          core_data_handle m transport clock device ver s
            (some (request link sn 0xAC02 body behind))

      was_set : after ≡ set_reaction s link ts
      was_set =
          let long : leb 4 (length body) ≡ true = ground arith in
          core_data_handle-reaction s link sn 0xAC02 body behind (omega arith) hash
          ∙ rw long (ap (set_reaction s link) (get_bytes32-bytes32 ts more lt))

      time : u32 (clock.time after.world) ≡ ts
      time =
          let kept : clock.time (set_reaction s link ts).world ≡ ts =
            data_send-world m transport (λ w. clock.time w ≡ ts) (reset s ts) _
              (λ cb bytes n w h. keeps cb bytes n ts w h) (clock.time-settimeofday ts s.world ok) in
          let e : clock.time after.world ≡ ts =
            ap (λ (t : DataState Q W). clock.time t.world) was_set ∙ kept in
          omega (arith, e, lt)
