-- ===== src/Examples/Mirrors.antt =====
-- Two pushes of one project: the first fails, the second lands on a body read just before.
use mathlib.Core.List.Permᴰ
use eagle_api.Prelude.{
  ◌&&◌, ◌===◌, ◌∷◌, Bool, List, Memᴰ, [], false, if◌then◌else◌, map, none, refl, some, true,
}
use eagle_api.DemiPush.{Label, Push, Settled, await_mirror, landing, reason_of, sort_push}
use eagle_api.DemiPush.Rows.{Store, Write, outcome_writes, record_outcome}
use eagle_api.DemiPush.Rows.Flags.{Flagged}
use eagle_api.DemiPush.Rows.Sweepable.{await_mirror-record_outcome}

abbrev failing : Label
failing = record {
  kind = "projects";
  id = "p1";
  outcome = record {
    reason = some "PARENT_NOT_FOUND";
    deleted_doc = none;
    read_at = some 900;
    pending = false;
    org_filter = none;
    ids = none;
  };
}

abbrev landing_again : Label
landing_again = record failing {
  outcome = record {
    reason = none;
    deleted_doc = none;
    read_at = some 1000;
    pending = true;
    org_filter = none;
    ids = none;
  };
}

abbrev lost : Push
lost = record { label = some failing; settled = Settled.resolved false }

abbrev kept : Push
kept = record { label = some landing_again; settled = Settled.resolved true }

abbrev pushes : List Push
pushes = lost ∷ kept ∷ []

abbrev store : Store
store = record {
  rows = λ k i.
      if (k === "projects") && (i === "p1")
      then some (record { pending = true; failed_at = some 10; error = none; org = none })
      else none;
  tombstones = λ k i. none;
}

abbrev writes : List (Bool × Write)
writes = map (λ w. (true, w)) (outcome_writes (await_mirror pushes))

await_mirror-record_outcome_example :
    Flagged 2000 "projects" "p1" (record_outcome (λ k. true) (λ i. true) 2000 writes store)
unfolding outcome_writes await_mirror reason_of sort_push landing
await_mirror-record_outcome_example =
    await_mirror-record_outcome (λ k. true) (λ i. true) 2000 pushes writes store lost failing
      "PARENT_NOT_FOUND" (Permᴰ.refl _) refl refl (Memᴰ.head refl) refl refl refl refl refl
      (_, refl)
