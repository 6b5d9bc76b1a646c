-- ===== src/Jobs/Reads.antt =====
-- What the two reads of a job (api/controllers/job.js) answer, and that they agree.
use eagle_api.Prelude.{
  ◌≡◌, ◌≢◌, ◌∷◌, ◌⊎◌, List, Option, String, false, arith, is_name, is_name_iff, none, some, true,
  inl, inr, Bool-cases,
}
use eagle_api.Jobs.{
  Caller, DownloadReply, ExportInfo, Job, JobInfo, JobStatus, StatusReply, completed,
  download_job_result, failed, file, file_name, format_job, found, get_job_status, has_sysadmin,
  job_failed, no_csv, no_result, not_complete, queued, running, user_id, visible_job,
}

-- `f` is the file name that the status read shows, if it shows one.
abbrev pub Names : Option ExportInfo → Option String → Type 0
Names none f = Unit {0}
Names (some e) f = e.filename ≡ f

-- A finished job's download: no result where the status read shows none, and else its file.
pub data Finished (job_id : String) (info : JobInfo) : DownloadReply → Type 0 where
  without_result : info.has_result ≡ false → Finished job_id info no_result
  without_csv : info.has_result ≡ true → Finished job_id info no_csv
  with_file :
      (f : Option String) (csv : String)
      → info.has_result ≡ true
      → Names info.export_info f
      → Finished job_id info (file (file_name job_id f) csv)

-- What the download answers where the status read shows a job in this status.
abbrev pub AgreesIn : JobStatus → String → JobInfo → DownloadReply → Type 0
AgreesIn queued job_id info d = d ≡ not_complete queued
AgreesIn running job_id info d = d ≡ not_complete running
AgreesIn failed job_id info d = d ≡ job_failed info.error
AgreesIn completed job_id info d = Finished job_id info d

abbrev pub Agrees : String → StatusReply → DownloadReply → Type 0
Agrees job_id StatusReply.invalid_id d = d ≡ DownloadReply.invalid_id
Agrees job_id StatusReply.not_found d = d ≡ DownloadReply.not_found
Agrees job_id StatusReply.unavailable d = d ≡ DownloadReply.unavailable
Agrees job_id (found info) d = AgreesIn info.status job_id info d

module _ (object_id : String → Option String) (find_jobs : String → Option (List Job)) where
  -- A caller reads the job that the queue finds first exactly if it was asked for under the caller's
  -- id, or the caller is sysadmin. Any other caller gets the 404 of a job that does not exist, from
  -- both reads.
  pub get_job_status_lem :
      (c : Option Caller) (job_id id : String) (job : Job) (rest : List Job)
      → object_id job_id ≡ some id
      → find_jobs id ≡ some (job ∷ rest)
      → ((get_job_status object_id find_jobs c job_id ≡ found (format_job job))
          × ((job.requested_by ≡ some (user_id c)) ⊎ (has_sysadmin c ≡ true)))
        ⊎ ((get_job_status object_id find_jobs c job_id ≡ StatusReply.not_found)
            × (download_job_result object_id find_jobs c job_id ≡ DownloadReply.not_found)
            × (job.requested_by ≢ some (user_id c))
            × (has_sysadmin c ≡ false))
  unfolding get_job_status download_job_result visible_job
  get_job_status_lem c job_id id job rest e f =
      elim (Bool-cases (is_name job.requested_by (user_id c))) [
        | inl own ↦ inl (ground arith, inl ((is_name_iff _ _).0 own))
        | inr other ↦ elim (Bool-cases (has_sysadmin c)) [
          | inl admin ↦ inl (ground arith, inr admin)
          | inr user ↦ inr (
            ground arith,
            ground arith,
            λ own. absurd (ground (arith, (is_name_iff job.requested_by (user_id c)).1 own)),
            user,
          )
        ]
      ]
