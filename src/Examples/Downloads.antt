-- ===== src/Examples/Downloads.antt =====
-- A finished export, asked for by its owner and by another caller.
use eagle_api.Prelude.{
  ◌===◌, ◌≡◌, ◌∷◌, is_name, List, Option, String, [], if◌then◌else◌, none, refl, some, true,
}
use eagle_api.Jobs.{
  Caller, DownloadReply, Job, download_job_result, user_id, has_role, visible_job, send_result,
}

abbrev export_job : Job
export_job = record {
  id = "5f";
  name = "project-doc-export";
  failed_at = none;
  last_finished_at = some 20;
  locked_at = some 10;
  fail_reason = none;
  requested_by = some "ann";
  requested_at = none;
  progress = none;
  project_id = some "p1";
  include_all = some true;
  result = some (record { csv = some "a,b"; filename = none });
}

abbrev ann : Option Caller
ann = some (record { sub = some "ann"; preferred_username = none; realm_roles = none })

abbrev bob : Option Caller
bob = some (record { sub = none; preferred_username = some "bob"; realm_roles = some [] })

abbrev object_id : String → Option String
object_id s = if s === "5f" then some s else none

abbrev find_jobs : String → Option (List Job)
find_jobs id = some (export_job ∷ [])

downloaded :
    download_job_result object_id find_jobs ann "5f" ≡ DownloadReply.file "job-5f.csv" "a,b"
unfolding download_job_result visible_job user_id has_role send_result is_name
downloaded = refl
