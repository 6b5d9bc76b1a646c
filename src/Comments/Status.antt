-- ===== src/Comments/Status.antt =====
-- The status of a comment and who may read it: setPermissionsFromEaoStatus, protectedPut and
-- protectedStatus of api/controllers/comment.js. `is_valid` is ObjectId.isValid.
use eagle_api.Prelude.{
  or_else, ◌===◌, ◌∷◌, Bool, List, Option, String, [], if◌then◌else◌, none, some, ℕ,
}

-- A stored comment; `content` stands for the fields that are copied as they are sent. The lists
-- `write` and `delete` are constant and left out.
pub record Comment (Content : Type 0) : Type 0 where
  pub id : String
  pub period : String
  pub number : ℕ
  pub eao_status : Option String
  pub read : List String
  pub date_posted : Option ℕ
  pub date_updated : Option ℕ
  pub content : Content

abbrev pub public_readers : List String
public_readers = "public" ∷ "staff" ∷ "sysadmin" ∷ []

abbrev pub staff_readers : List String
staff_readers = "staff" ∷ "sysadmin" ∷ []

-- The status and the readers that a status sets, none for a status that sets nothing.
unfoldable pub permissions_from_eao_status : Option String → Option (String × List String)
permissions_from_eao_status none = none
permissions_from_eao_status (some status) =
    if status === "Published"
    then some ("Published", public_readers)
    else if status === "Pending"
    then some ("Pending", staff_readers)
    else if status === "Deferred"
    then some ("Deferred", staff_readers)
    else if status === "Rejected"
    then some ("Rejected", staff_readers)
    else if status === "Reset"
    then some ("Pending", staff_readers)
    else none

-- The body of a PUT; `put_content` sets the fields that are copied.
pub record PutBody (Content : Type 0) : Type 0 where
  pub put_status : Option String
  pub put_date_posted : Option ℕ
  pub put_content : Content → Content

module _ {Content : Type 0} where
  abbrev pub with_permissions : Option (String × List String) → Comment Content → Comment Content
  with_permissions none c = c
  with_permissions (some p) c = record c { eao_status = some p.0; read = p.1 }

  unfoldable pub set_permissions_from_eao_status : Option String → Comment Content → Comment Content
  unfolding permissions_from_eao_status
  set_permissions_from_eao_status status c = with_permissions (permissions_from_eao_status status) c

  -- `updateOne({ _id })`: the first comment with the id, and how many matched.
  unfoldable pub update_one :
      String
      → (Comment Content → Comment Content)
      → List (Comment Content)
      → List (Comment Content) × ℕ
  update_one id change [] = ([], 0)
  update_one id change (c ∷ cs) =
      let later = update_one id change cs in
      if c.id === id then (change c ∷ cs, 1) else (c ∷ later.0, later.1)

  unfoldable pub put_change : ℕ → PutBody Content → Comment Content → Comment Content
  unfolding set_permissions_from_eao_status
  put_change now b c = set_permissions_from_eao_status b.put_status (record c {
    eao_status = or_else b.put_status c.eao_status;
    date_posted = or_else b.put_date_posted c.date_posted;
    date_updated = some now;
    content = b.put_content c.content;
  })

  unfoldable pub status_change : ℕ → Option String → Comment Content → Comment Content
  unfolding set_permissions_from_eao_status
  status_change now status c =
      set_permissions_from_eao_status status (record c { date_updated = some now })

  -- None is the reply 400, and otherwise the reply holds how many comments matched.
  unfoldable pub protected_put :
      (String → Bool)
      → ℕ
      → String
      → PutBody Content
      → List (Comment Content)
      → List (Comment Content) × Option ℕ
  unfolding put_change update_one
  protected_put is_valid now id b cs =
      if is_valid id
      then (let updated = update_one id (put_change now b) cs in (updated.0, some updated.1))
      else (cs, none)

  unfoldable pub protected_status :
      (String → Bool)
      → ℕ
      → String
      → Option String
      → List (Comment Content)
      → List (Comment Content) × Option ℕ
  unfolding status_change update_one
  protected_status is_valid now id status cs =
      if is_valid id
      then (let updated = update_one id (status_change now status) cs in
          (updated.0, some updated.1))
      else (cs, none)
