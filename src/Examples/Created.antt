-- ===== src/Examples/Created.antt =====
-- A period with two comments, to which another is sent, and a period that is created and published.
use eagle_api.Prelude.{
  ◌≡◌, ◌∷◌, ◌≤◌, All, Bool, List, Memᴰ, String, [], arith, none, refl, is_name, some-injective,
  subst, sym, some, true, ℕ,
}
use eagle_api.DataQuery.Ids.{apply_create_id, is_object_id_string}
use eagle_api.Comments.Status.{
  Comment, PutBody, permissions_from_eao_status, protected_put, protected_status,
}
use eagle_api.Comments.Creating.{
  PostBody, PostReply, SentNumber, Store, get_next_comment_id_count, new_comment, post_identified,
  post_numbered, protected_post, save_comment, count_of,
}
use eagle_api.Comments.Numbers.{IsCounted, IsNumbered, protected_post-IsNumbered}
use eagle_api.Comments.Interleaved.{
  Move, Running, moves, moves-IsNumbered, numbered, save_entry, take_number,
}
use eagle_api.Comments.Created.{IsOutcome, protected_post-IsOutcome}
use eagle_api.Comments.Readers.{IsReadByStatus, writes-IsReadByStatus}
use eagle_api.Periods.Writes.{PeriodBody}
use eagle_api.Periods.Requests.{PeriodWrite, write_all}
use eagle_api.Periods.Flags.{IsFlagged}
use eagle_api.Periods.Runs.{write_all-IsFlagged}

abbrev any_id : String → Bool
any_id s = true

abbrev same_id : String → String
same_id s = s

abbrev period_id : String
period_id = "5f0000000000000000000001"

abbrev comment : String → ℕ → Comment String
comment id n = record {
  id = id;
  period = period_id;
  number = n;
  eao_status = some "Published";
  read = "public" ∷ "staff" ∷ "sysadmin" ∷ [];
  date_posted = none;
  date_updated = none;
  content = "text";
}

abbrev store : Store String
store = record {
  periods = (period_id, 4) ∷ [];
  comments = comment "c4" 4 ∷ comment "c2" 2 ∷ [];
  other_ids = period_id ∷ [];
}

abbrev body : PostBody String
body = record {
  sent_id = none;
  sent_period = some period_id;
  sent_number = SentNumber.unsent;
  valued_components = [];
  documents = [];
  sent_status = some "Pending";
  sent_date_posted = none;
  sent_date_updated = none;
  sent_content = "more";
}

created_with_5 :
    (protected_post true any_id same_id "c5" body store).1
    ≡ PostReply.created (new_comment "c5" period_id 5 body)
unfolding protected_post post_identified post_numbered get_next_comment_id_count save_comment
    new_comment apply_create_id is_object_id_string
created_with_5 = refl

within :
    (c : Comment String) (id : String) (k n : ℕ)
    → c ≡ comment id k
    → k ≤ 4
    → count_of c.period store.periods ≡ some n
    → c.number ≤ n
within c id k n e le known =
    subst (λ (x : Comment String). count_of x.period store.periods ≡ some n → x.number ≤ n) (sym e)
      (λ h. let four : 4 ≡ n = some-injective h in omega (arith, four, le)) known

store-IsCounted : IsCounted store
store-IsCounted c (Memᴰ.head e) n known = within c "c4" 4 n e (omega arith) known
store-IsCounted c (Memᴰ.tail (Memᴰ.head e)) n known = within c "c2" 2 n e (omega arith) known
store-IsCounted c (Memᴰ.tail (Memᴰ.tail m)) n known = elim m [ ]

protected_post-IsNumbered_example :
    IsNumbered (protected_post true any_id same_id "c5" body store).0
protected_post-IsNumbered_example =
    protected_post-IsNumbered true any_id same_id "c5" body store
      (store-IsCounted, (refl, (refl, tt)))

protected_post-IsOutcome_example :
    IsOutcome body store (protected_post true any_id same_id "c5" body store)
protected_post-IsOutcome_example =
    protected_post-IsOutcome true any_id same_id "c5" body store store-IsCounted

-- Two requests take their numbers, and the second is saved first.
abbrev running : Running String
running = record {
  periods = store.periods;
  entries = (comment "c4" 4, true) ∷ (comment "c2" 2, true) ∷ [];
  other_ids = store.other_ids;
}

abbrev interleaving : List (Move String)
interleaving =
    take_number "c5" period_id body
    ∷ take_number "c6" period_id body
    ∷ save_entry 0
    ∷ save_entry 1
    ∷ []

moves-IsNumbered_example : IsNumbered (numbered (moves interleaving running))
moves-IsNumbered_example =
    moves-IsNumbered interleaving running (store-IsCounted, (refl, (refl, tt)))

abbrev put_body : PutBody String
put_body = record { put_status = some "Rejected"; put_date_posted = none; put_content = λ c. c }

writes-IsReadByStatus_example :
    All IsReadByStatus (protected_put any_id 9 "c4" put_body store.comments).0
    × All IsReadByStatus (protected_status any_id 9 "c4" (some "Deferred") store.comments).0
unfolding permissions_from_eao_status is_name
writes-IsReadByStatus_example =
    writes-IsReadByStatus any_id 9 "c4" put_body (some "Deferred") store.comments refl
      (refl, (refl, tt))

abbrev period_body : PeriodBody String
period_body = record {
  sent_id = none;
  sent_project = some "p1";
  sent_milestone = none;
  sent_is_published = none;
  sent_read = some ("public" ∷ []);
  sent_content = "instructions";
}

abbrev requests : List (PeriodWrite String)
requests =
    PeriodWrite.post "q1" "p9" period_body
    ∷ PeriodWrite.unpublish true (some "q1")
    ∷ PeriodWrite.publish true (some "q1")
    ∷ []

write_all-IsFlagged_example : All IsFlagged (write_all any_id same_id requests [])
write_all-IsFlagged_example = write_all-IsFlagged any_id same_id requests [] tt
