-- ===== src/Examples/Shown.antt =====
-- A public project with a period, and three comments on it.
use eagle_api.Prelude.{
  ◌===◌, ◌≡◌, ◌∷◌, Bool, List, Memᴰ, String, [], false, filter, if◌then◌else◌, length, none, not,
  refl, some, true,
}
use eagle_api.Mongo.{Field, Row, Value}
use eagle_api.Mongo.Reference.{reference}
use eagle_api.ParentRead.{
  Epic, ids_matching, parent_read_match, readable_period_ids, readable_period_match,
  readable_periods_query, roles_with_public, unreadable_by, unreadable_parent_ids,
  unreadable_parents_query,
}
use eagle_api.DataQuery.{DataQuery, aggregations, front_stages, shape_for, with_id_tiebreak}
use eagle_api.DataQuery.Params.{
  build_query, get_skip_limit_parameters, sanitize_fields, sort_keys_from,
}
use eagle_api.DataQuery.Engine.{is_readable, run_data_query, unreadable_parents}
use eagle_api.DataQuery.Engine.Reference.{in_order}
use eagle_api.DataQuery.Engine.Pages.{answered, run_data_query-readable}
use eagle_api.Comments.{
  CommentRequest, protected_head_query, public_comment_fields, public_conditions, public_get_query,
  public_roles, reads_anonymity, sanitized,
}
use eagle_api.Comments.Replies.{HeadReply, public_reply, reply_rows}
use eagle_api.Comments.Handlers.{protected_head, public_get, public_period_gate}
use eagle_api.Comments.Public.{IsPublicView, has_readable_period, public_get-IsPublicView}
use eagle_api.Comments.Heads.{protected_head-ok}
use eagle_api.Periods.{PeriodRequest, protected_summary}
use eagle_api.Periods as Periods
use eagle_api.Periods.Reads as PeriodReads

abbrev pub cells : List (String × Field) → Row
cells [] p = Field.absent
cells ((k, v) ∷ rest) p = if p === k then v else cells rest p

abbrev pub text : String → Field
text s = Field.value (Value.str s)

abbrev open_project : Row
open_project =
    cells (("_schemaName", text "Project") ∷ ("read", Field.list ("public" ∷ "staff" ∷ [])) ∷ [])

abbrev open_period : Row
open_period = cells (
    ("_schemaName", text "CommentPeriod")
    ∷ ("project", text "p1")
    ∷ ("read", Field.list ("public" ∷ []))
    ∷ [])

abbrev comment_of : String → Bool → List String → Row
comment_of author anonymous read = cells (
    ("_schemaName", text "Comment")
    ∷ ("period", text "q1")
    ∷ ("eaoStatus", text "Published")
    ∷ ("author", text author)
    ∷ ("isAnonymous", Field.value (Value.bool anonymous))
    ∷ ("read", Field.list read)
    ∷ [])

abbrev epic : Epic
epic = ("p1", open_project) ∷ ("q1", open_period) ∷ []

abbrev comments : List Row
comments =
    comment_of "Ann" false ("public" ∷ "staff" ∷ [])
    ∷ comment_of "Bob" true ("public" ∷ "staff" ∷ [])
    ∷ comment_of "Cy" false ("staff" ∷ [])
    ∷ []

abbrev is_valid : String → Bool
is_valid s = not (s === "bad")

abbrev asked : CommentRequest
asked = record {
  comment_id = none;
  period = some ("q1" ∷ []);
  sort_values = some ("-dateAdded" ∷ []);
  page_size = none;
  page_num = none;
  wants_count = true;
  fields = some ("author" ∷ "eaoNotes" ∷ []);
  roles = [];
}

-- The first of the rows.
abbrev first_or : Row → List Row → Row
first_or d [] = d
first_or d (x ∷ xs) = x

abbrev nothing : Row
nothing p = Field.absent

abbrev replied : List Row
replied = reply_rows (public_get (in_order reference) is_valid asked (some epic) comments)

two_replied : length replied ≡ 2
unfolding public_get public_period_gate public_reply public_get_query public_conditions
    public_comment_fields reads_anonymity readable_period_match readable_period_ids
    readable_periods_query unreadable_parent_ids unreadable_parents_query unreadable_by
    roles_with_public ids_matching run_data_query unreadable_parents aggregations front_stages
    shape_for parent_read_match build_query sanitize_fields with_id_tiebreak sort_keys_from
    get_skip_limit_parameters
two_replied = refl

replied_first : Memᴰ (first_or nothing replied) replied
unfolding public_get public_period_gate public_reply public_get_query public_conditions
    public_comment_fields reads_anonymity readable_period_match readable_period_ids
    readable_periods_query unreadable_parent_ids unreadable_parents_query unreadable_by
    roles_with_public ids_matching run_data_query unreadable_parents aggregations front_stages
    shape_for parent_read_match build_query sanitize_fields with_id_tiebreak sort_keys_from
    get_skip_limit_parameters
replied_first = Memᴰ.head refl

public_get-IsPublicView_example :
    (comment : Row) × Memᴰ comment comments
    × (is_readable public_roles comment ≡ true)
    × (has_readable_period reference epic comment ≡ true)
    × IsPublicView (sanitized is_valid asked) comment (first_or nothing replied)
public_get-IsPublicView_example =
    public_get-IsPublicView (in_order reference) is_valid asked epic comments
      (first_or nothing replied) replied_first

protected_head-ok_example :
    let q = protected_head_query is_valid ("staff" ∷ []) (some "c9") none (some true) in
    protected_head
      (in_order reference)
      is_valid
      ("staff" ∷ [])
      (some "c9")
      none
      (some true)
      comments
    ≡ HeadReply.ok
        (length (filter (is_readable ("staff" ∷ [])) (filter (reference.matches q.query) comments)))
protected_head-ok_example =
    protected_head-ok (in_order reference) is_valid ("staff" ∷ []) (some "c9") none (some true)
      comments

-- A query for the first comment that staff may read.
abbrev first_for_staff : DataQuery
first_for_staff = record (protected_head_query is_valid ("staff" ∷ []) none none none) {
  count = false;
  limit_rows = some 1;
}

abbrev staff_rows : List Row
staff_rows = answered (run_data_query (in_order reference) first_for_staff none comments)

staff_first : Memᴰ (first_or nothing staff_rows) staff_rows
unfolding protected_head_query run_data_query unreadable_parents aggregations front_stages shape_for
    parent_read_match
staff_first = Memᴰ.head refl

run_data_query-readable_example :
    is_readable first_for_staff.roles (first_or nothing staff_rows) ≡ true
unfolding protected_head_query
run_data_query-readable_example =
    run_data_query-readable (in_order reference) first_for_staff none comments
      (first_or nothing staff_rows) refl refl staff_first

abbrev periods_asked : PeriodRequest
periods_asked = record {
  period_id = some "q1";
  project = none;
  one_project = none;
  sort_values = none;
  page_size = none;
  page_num = none;
  wants_count = false;
  fields = some ("project" ∷ []);
  is_deleted = none;
  roles = "staff" ∷ [];
}

abbrev no_gate_period : PeriodRequest
no_gate_period = record periods_asked { period_id = none }

abbrev open_rows : List Row
open_rows =
    PeriodReads.reply_rows (
      Periods.public_get (in_order reference) is_valid no_gate_period (some epic)
        (open_period ∷ []))
