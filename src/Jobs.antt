-- ===== src/Jobs.antt =====
-- The two reads of a background job: api/controllers/job.js. The queue is a function from a parsed
-- id to the jobs that Agenda finds, none where `getAgenda` or the search throws; the parser of
-- object ids is a parameter too.
pub mod Reads
use Prim.Native.String.{◌++◌ as text_append}
use eagle_api.Prelude.{
  or_else, ◌&&◌, ◌++◌, ◌===◌, ◌||◌, ◌≡◌, ◌∷◌, Bool, List, Option, String, [], false, if◌then◌else◌,
  includes, is_name, is_set, none, not, some, suc, true, zero, ℕ,
}
use eagle_api.Auth.{truthy}

-- `realm_access.roles` is none where it is no array.
pub record Caller : Type 0 where
  pub sub : Option String
  pub preferred_username : Option String
  pub realm_roles : Option (List String)

pub record JobResult : Type 0 where
  pub csv : Option String
  pub filename : Option String

-- `job.attrs` and its `data`.
pub record Job : Type 0 where
  pub id : String
  pub name : String
  pub failed_at : Option ℕ
  pub last_finished_at : Option ℕ
  pub locked_at : Option ℕ
  pub fail_reason : Option String
  pub requested_by : Option String
  pub requested_at : Option String
  pub progress : Option ℕ
  pub project_id : Option String
  pub include_all : Option Bool
  pub result : Option JobResult

pub data JobStatus : Type 0 where
  queued running completed failed : JobStatus

-- The fields that an export job has beside those of every job.
pub record ExportInfo : Type 0 where
  pub project_id : Option String
  pub include_all : Option Bool
  pub filename : Option String

pub record JobInfo : Type 0 where
  pub job_id : String
  pub type_name : String
  pub status : JobStatus
  pub requested_by : Option String
  pub created_at : Option String
  pub started_at : Option ℕ
  pub completed_at : Option ℕ
  pub progress : Option ℕ
  pub has_result : Bool
  pub error : Option String
  pub export_info : Option ExportInfo

unfoldable pub has_role : Option Caller → String → Bool
has_role none role = false
has_role (some c) role = elim c.realm_roles [ none ↦ false | some roles ↦ includes roles role ]

abbrev pub has_sysadmin : Option Caller → Bool
has_sysadmin c = has_role c "sysadmin"

unfoldable pub status_of : Job → JobStatus
status_of a = elim a.failed_at [
  | some t ↦ failed
  | none ↦ elim a.last_finished_at [
    | some t ↦ completed
    | none ↦ elim a.locked_at [ some t ↦ running | none ↦ queued ]
  ]
]

abbrev pub is_completed : JobStatus → Bool
is_completed completed = true
is_completed _ = false

-- `progress || null`: a progress of 0 is shown as null.
abbrev pub non_zero : Option ℕ → Option ℕ
non_zero none = none
non_zero (some zero) = none
non_zero (some (suc n)) = some (suc n)

abbrev pub filename_of : Option JobResult → Option String
filename_of none = none
filename_of (some r) = truthy r.filename

unfoldable pub format_job : Job → JobInfo
format_job a = record {
  job_id = a.id;
  type_name = a.name;
  status = status_of a;
  requested_by = a.requested_by;
  created_at = a.requested_at;
  started_at = a.locked_at;
  completed_at = a.last_finished_at;
  progress = non_zero a.progress;
  has_result = is_completed (status_of a) && is_set a.result;
  error = truthy a.fail_reason;
  export_info =
      if a.name === "project-doc-export"
      then some (record {
        project_id = a.project_id;
        include_all = a.include_all;
        filename = if is_completed (status_of a) then filename_of a.result else none;
      })
      else none;
}

unfoldable pub user_id : Option Caller → String
user_id none = "unknown"
user_id (some c) = elim (or_else (truthy c.sub) (truthy c.preferred_username)) [
  | none ↦ "unknown"
  | some name ↦ name
]

-- The answers of the reads: 400, 404, the 500 of the catch, and a 200 with the job.
pub data StatusReply : Type 0 where
  invalid_id not_found unavailable : StatusReply
  found : JobInfo → StatusReply

-- The same, 422 with the reason, 202 with the status, 500 without a result or a CSV, and the file
-- with its name and its content.
pub data DownloadReply : Type 0 where
  invalid_id not_found unavailable no_result no_csv : DownloadReply
  job_failed : Option String → DownloadReply
  not_complete : JobStatus → DownloadReply
  file : String → String → DownloadReply

-- `jobs[0]` where the caller owns it or is sysadmin.
unfoldable pub visible_job : Option Caller → List Job → Option Job
visible_job c [] = none
visible_job c (job ∷ rest) =
    if not (is_name job.requested_by (user_id c)) && not (has_sysadmin c) then none else some job

-- `result.filename`, or a name made of the id in the request.
abbrev pub file_name : String → Option String → String
file_name job_id none = text_append "job-" (text_append job_id ".csv")
file_name job_id (some name) = name

-- The answer to a download of a job that the caller may see.
unfoldable pub send_result : String → Job → DownloadReply
send_result job_id a = elim a.failed_at [
  | some t ↦ job_failed (truthy a.fail_reason)
  | none ↦ elim a.last_finished_at [
    | none ↦ not_complete (elim a.locked_at [ some t ↦ running | none ↦ queued ])
    | some t ↦ elim a.result [
      | none ↦ no_result
      | some r ↦ elim (truthy r.csv) [
        | none ↦ no_csv
        | some csv ↦ file (file_name job_id (truthy r.filename)) csv
      ]
    ]
  ]
]

module _ (object_id : String → Option String) (find_jobs : String → Option (List Job)) where
  unfoldable pub get_job_status : Option Caller → String → StatusReply
  get_job_status c job_id = elim (object_id job_id) [
    | none ↦ invalid_id
    | some id ↦ elim (find_jobs id) [
      | none ↦ unavailable
      | some jobs ↦ elim (visible_job c jobs) [
        | none ↦ not_found
        | some job ↦ found (format_job job)
      ]
    ]
  ]

  unfoldable pub download_job_result : Option Caller → String → DownloadReply
  download_job_result c job_id = elim (object_id job_id) [
    | none ↦ invalid_id
    | some id ↦ elim (find_jobs id) [
      | none ↦ unavailable
      | some jobs ↦ elim (visible_job c jobs) [
        | none ↦ not_found
        | some job ↦ send_result job_id job
      ]
    ]
  ]
