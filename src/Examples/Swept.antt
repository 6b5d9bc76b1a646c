-- ===== src/Examples/Swept.antt =====
-- Two projects whose pushes failed, swept one at a time.
use mathlib.Core.List.Permᴰ
use eagle_api.Prelude.{◌===◌, String, if◌then◌else◌, none, some, true}
use eagle_api.DemiPush.{Push, Settled}
use eagle_api.DemiPush.Rows.{Row, Store}
use eagle_api.DemiPush.Sweeps.{Attempt, Order}

abbrev failed_row : Row
failed_row = record { pending = true; failed_at = some 10; error = none; org = none }

abbrev two_failed : Store
two_failed = record {
  rows = λ k i. if k === "projects" then some failed_row else none;
  tombstones = λ k i. none;
}

-- A push of the row that lands on a read at 9000.
abbrev landing_push : String → Push
landing_push i = record {
  label = some (record {
    kind = "projects";
    id = i;
    outcome = record {
      reason = none;
      deleted_doc = none;
      read_at = some 9000;
      pending = true;
      org_filter = none;
      ids = none;
    };
  });
  settled = Settled.resolved true;
}

abbrev attempt : String → Attempt
attempt i = record { push = landing_push i; failed_at = 9100; goes_through = λ w. true }

abbrev stored_order : Order
stored_order key ids = ids
