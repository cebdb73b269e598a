-- ===== src/Comm/Requests/RoundTrip.antt =====
-- The requests for compile servers come over the wire as they were sent, up to what an older
-- protocol leaves out.
use icecream.Base.{
  ℕ, ◌≡◌, refl, ap, not, ◌<◌, ◌^◌, Bool-cases, inl, inr, arith, leb, ◌==◌, if◌then◌else◌, [], ◌&&◌,
}
use icecream.Comm.{Bytes, IsWord, IsText, IsEnvironments, is_protocol_version}
use icecream.Comm.RoundTrip.{
  then_read, then_since, read_u32-put_u32, read_string-put_string,
  read_environments-write_environments,
}
use icecream.Comm.Path.{shorten_filename, shorten_filename-IsText}
use icecream.Comm.Requests.{
  GetCs, UseCs, NoCs, MonGetCs, int_geb, int_max, new_get_cs, fill_get_cs, send_get_cs, fill_use_cs,
  send_use_cs, fill_no_cs, send_no_cs, fill_mon_request, send_mon_request, fill_file, send_file,
  fill_mon_get_cs, send_mon_get_cs,
}

abbrev pub IsGetCs : GetCs → Type 0
IsGetCs m =
    IsEnvironments m.versions
    × IsText m.filename
    × IsWord m.lang
    × IsWord m.count
    × IsText m.target
    × IsWord m.arg_flags
    × IsWord m.client_id
    × IsText m.preferred_host
    × (m.minimal_host_version < 2 ^ 31)
    × IsWord m.required_features
    × IsWord m.client_count
    × IsWord m.niceness

-- What of a request a channel of the given version carries. Versions 31 to 33 only say whether the
-- host must speak at least version 31.
unfoldable pub carried_get_cs : ℕ → GetCs → GetCs
carried_get_cs p m = record m {
  filename = shorten_filename m.filename;
  preferred_host = if is_protocol_version 22 p then m.preferred_host else [];
  minimal_host_version =
      if is_protocol_version 34 p
      then m.minimal_host_version
      else if is_protocol_version 31 p && leb 31 m.minimal_host_version
      then 31
      else 0;
  client_count = if is_protocol_version 39 p then m.client_count else 0;
  required_features = if is_protocol_version 42 p then m.required_features else 0;
  niceness = if is_protocol_version 43 p then m.niceness else 0;
}

abbrev pub IsUseCs : UseCs → Type 0
IsUseCs m =
    IsWord m.job_id
    × IsText m.hostname
    × IsWord m.port
    × IsText m.host_platform
    × IsWord m.got_env
    × IsWord m.client_id
    × IsWord m.matched_job_id

abbrev pub carried_use_cs : ℕ → UseCs → UseCs
carried_use_cs p m = record m {
  matched_job_id = if is_protocol_version 28 p then m.matched_job_id else 0;
}

pub fill_use_cs-send_use_cs :
    (p : ℕ) (m : UseCs) (behind : Bytes)
    → IsUseCs m
    → fill_use_cs p (send_use_cs p m behind) ≡ (
      record m { matched_job_id = if is_protocol_version 28 p then m.matched_job_id else 0 },
      behind,
    )
unfolding fill_use_cs send_use_cs
fill_use_cs-send_use_cs p m behind
      (job_id, hostname, port, host_platform, got_env, client_id, matched) =
    then_read _ _ (read_u32-put_u32 job_id) (
      then_read _ _ (read_u32-put_u32 port) (
        then_read _ _ (read_string-put_string hostname) (
          then_read _ _ (read_string-put_string host_platform) (
            then_read _ _ (read_u32-put_u32 got_env) (
              then_read _ _ (read_u32-put_u32 client_id)
                (then_since _ _ _ _ _ _ (read_u32-put_u32 matched) refl))))))

-- The flag of version 31 says no more than the number of version 34 does.
minimal_read :
    (p v : ℕ)
    → v < 2 ^ 31
    → (let flag = if is_protocol_version 31 p then if int_geb v 31 then 1 else 0 else 0 in
        let minimal = if not (flag == 0) then 31 else 0 in
        if is_protocol_version 34 p
        then int_max minimal (if is_protocol_version 34 p then v else 0)
        else minimal)
      ≡ (if is_protocol_version 34 p
          then v
          else if is_protocol_version 31 p && leb 31 v
          then 31
          else 0)
minimal_read p v h = ground arith

pub fill_get_cs-send_get_cs :
    (p : ℕ) (m : GetCs) (behind : Bytes)
    → IsGetCs m
    → fill_get_cs p (send_get_cs p m behind) ≡ (carried_get_cs p m, behind)
unfolding fill_get_cs send_get_cs carried_get_cs
fill_get_cs-send_get_cs p m behind
      (
        versions, filename, lang, count, target, arg_flags, client_id, preferred, minimal, required,
        clients, niceness,
      ) =
    then_read _ _ (read_environments-write_environments versions) (
      then_read _ _ (read_string-put_string (shorten_filename-IsText _ filename)) (
        then_read _ _ (read_u32-put_u32 lang) (
          then_read _ _ (read_u32-put_u32 count) (
            then_read _ _ (read_string-put_string target) (
              then_read _ _ (read_u32-put_u32 arg_flags) (
                then_read _ _ (read_u32-put_u32 client_id) (
                  then_since _ _ _ _ _ _ (read_string-put_string preferred) (
                    then_since _ _ _ _ _ _ (read_u32-put_u32 (ground arith)) (
                      then_since _ _ _ _ _ _ (read_u32-put_u32 (omega (arith, minimal))) (
                        then_since _ _ _ _ _ _ (read_u32-put_u32 clients) (
                          then_since _ _ _ _ _ _ (read_u32-put_u32 required) (
                            then_since _ _ _ _ _ _ (read_u32-put_u32 niceness) (
                              ap
                                (λ v. (
                                  record m {
                                    filename = shorten_filename m.filename;
                                    preferred_host =
                                        if is_protocol_version 22 p then m.preferred_host else [];
                                    minimal_host_version = v;
                                    client_count =
                                        if is_protocol_version 39 p then m.client_count else 0;
                                    required_features =
                                        if is_protocol_version 42 p then m.required_features else 0;
                                    niceness = if is_protocol_version 43 p then m.niceness else 0;
                                  },
                                  behind,
                                ))
                                (minimal_read p m.minimal_host_version minimal))))))))))))))

abbrev pub IsNoCs : NoCs → Type 0
IsNoCs m = IsWord m.job_id × IsWord m.client_id

pub fill_no_cs-send_no_cs :
    (m : NoCs) (behind : Bytes) → IsNoCs m → fill_no_cs (send_no_cs m behind) ≡ (m, behind)
unfolding fill_no_cs send_no_cs
fill_no_cs-send_no_cs m behind (job_id, client_id) =
    then_read _ _ (read_u32-put_u32 job_id) (then_read _ _ (read_u32-put_u32 client_id) refl)

-- What of the request itself a monitor is told.
unfoldable pub carried_to_monitor : ℕ → GetCs → GetCs
carried_to_monitor p m =
    if is_protocol_version 29 p
    then record new_get_cs { filename = shorten_filename m.filename; lang = m.lang }
    else carried_get_cs p m

fill_file-send_file :
    (m : GetCs) (behind : Bytes)
    → IsGetCs m
    → fill_file (send_file m behind)
      ≡ (record new_get_cs { filename = shorten_filename m.filename; lang = m.lang }, behind)
unfolding fill_file send_file
fill_file-send_file m behind h =
    then_read _ _ (read_string-put_string (shorten_filename-IsText _ h.1))
      (then_read _ _ (read_u32-put_u32 h.2) refl)

fill_mon_request-send_mon_request :
    (p : ℕ) (m : GetCs) (behind : Bytes)
    → IsGetCs m
    → fill_mon_request p (send_mon_request p m behind) ≡ (carried_to_monitor p m, behind)
unfolding fill_mon_request send_mon_request carried_to_monitor
fill_mon_request-send_mon_request p m behind h = elim (Bool-cases (is_protocol_version 29 p)) [
  | inl new ↦ rw new (fill_file-send_file m behind h)
  | inr older ↦ rw older (fill_get_cs-send_get_cs p m behind h)
]

abbrev pub IsMonGetCs : MonGetCs → Type 0
IsMonGetCs m = IsGetCs m.request × IsWord m.job_id × IsWord m.clientid

abbrev pub carried_mon_get_cs : ℕ → MonGetCs → MonGetCs
carried_mon_get_cs p m = record m { request = carried_to_monitor p m.request }

pub fill_mon_get_cs-send_mon_get_cs :
    (p : ℕ) (m : MonGetCs) (behind : Bytes)
    → IsMonGetCs m
    → fill_mon_get_cs p (send_mon_get_cs p m behind) ≡ (carried_mon_get_cs p m, behind)
unfolding fill_mon_get_cs send_mon_get_cs
fill_mon_get_cs-send_mon_get_cs p m behind (request, job_id, clientid) =
    then_read _ _ (fill_mon_request-send_mon_request p m.request _ request)
      (then_read _ _ (read_u32-put_u32 job_id) (then_read _ _ (read_u32-put_u32 clientid) refl))
