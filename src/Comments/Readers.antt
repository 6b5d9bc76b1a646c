-- ===== src/Comments/Readers.antt =====
-- Who may read a comment after the writes of api/controllers/comment.js.
use eagle_api.Prelude.{
  or_else, ◌===◌, ◌≡◌, ◌∷◌, All, Bool, List, Option, String, [], ap, arith, if-pick, includes,
  is_name, is_set, none, refl, some, true, ℕ,
}
use eagle_api.Comments.Status.{
  Comment, PutBody, permissions_from_eao_status, protected_put, protected_status, put_change,
  set_permissions_from_eao_status, status_change, update_one, with_permissions,
}

abbrev pub IsPermission : Option (String × List String) → Type 0
IsPermission none = Unit
IsPermission (some p) = includes p.1 "public" ≡ (p.0 === "Published")

pub permissions-IsPermission :
    (status : Option String) → IsPermission (permissions_from_eao_status status)
unfolding permissions_from_eao_status
permissions-IsPermission none = tt
permissions-IsPermission (some status) = if-pick IsPermission (status === "Published") refl (
    if-pick IsPermission (status === "Pending") refl (
      if-pick IsPermission (status === "Deferred") refl (
        if-pick IsPermission (status === "Rejected") refl
          (if-pick IsPermission (status === "Reset") refl tt))))

-- A status that is not sent, or one of the five that the code knows.
abbrev pub is_known_status : Option String → Bool
is_known_status none = true
is_known_status (some status) = is_set (permissions_from_eao_status (some status))

module _ {Content : Type 0} where
  -- `read` holds "public" exactly if the status is "Published".
  abbrev pub IsReadByStatus : Comment Content → Type 0
  IsReadByStatus c = includes c.read "public" ≡ is_name c.eao_status "Published"

  pub with_permissions-IsReadByStatus :
      (p : Option (String × List String)) (c : Comment Content)
      → IsPermission p
      → (p ≡ none → IsReadByStatus c)
      → IsReadByStatus (with_permissions p c)
  unfolding is_name
  with_permissions-IsReadByStatus none c h k = k refl
  with_permissions-IsReadByStatus (some p) c h k = h

  -- A known status that sets nothing is one that is not sent.
  unset_status :
      (c : Comment Content) (status : Option String)
      → is_known_status status ≡ true
      → permissions_from_eao_status status ≡ none
      → IsReadByStatus c
      → includes c.read "public" ≡ is_name (or_else status c.eao_status) "Published"
  unset_status c none known e h = h
  unset_status c (some s) known e h = absurd (ground (arith, known, ap is_set e))

  put_change-IsReadByStatus :
      (now : ℕ) (b : PutBody Content) (c : Comment Content)
      → is_known_status b.put_status ≡ true
      → IsReadByStatus c
      → IsReadByStatus (put_change now b c)
  unfolding put_change set_permissions_from_eao_status
  put_change-IsReadByStatus now b c known h =
      with_permissions-IsReadByStatus (permissions_from_eao_status b.put_status) _
        (permissions-IsPermission b.put_status) (λ e. unset_status c b.put_status known e h)

  status_change-IsReadByStatus :
      (now : ℕ) (status : Option String) (c : Comment Content)
      → IsReadByStatus c
      → IsReadByStatus (status_change now status c)
  unfolding status_change set_permissions_from_eao_status
  status_change-IsReadByStatus now status c h =
      with_permissions-IsReadByStatus (permissions_from_eao_status status) _
        (permissions-IsPermission status) (λ e. h)

  All-update_one :
      (P : Comment Content → Type 0) (id : String) (change : Comment Content → Comment Content)
      (cs : List (Comment Content))
      → ((c : Comment Content) → P c → P (change c))
      → All P cs
      → All P (update_one id change cs).0
  unfolding update_one
  All-update_one P id change [] keep h = tt
  All-update_one P id change (c ∷ cs) keep h =
      if-pick (λ (r : List (Comment Content) × ℕ). All P r.0) (c.id === id) (keep c h.0, h.1)
        (h.0, All-update_one P id change cs keep h.1)

  -- If the `read` of every comment holds "public" exactly if its status is "Published", then so it
  -- does after a PUT whose status is known or not sent, and after any change of a comment's status.
  pub writes-IsReadByStatus :
      (is_valid : String → Bool) (now : ℕ) (id : String) (b : PutBody Content)
      (status : Option String) (cs : List (Comment Content))
      → is_known_status b.put_status ≡ true
      → All IsReadByStatus cs
      → All IsReadByStatus (protected_put is_valid now id b cs).0
        × All IsReadByStatus (protected_status is_valid now id status cs).0
  unfolding protected_put protected_status
  writes-IsReadByStatus is_valid now id b status cs known h = (
    if-pick (λ (r : List (Comment Content) × Option ℕ). All IsReadByStatus r.0) (is_valid id)
        (All-update_one IsReadByStatus id (put_change now b) cs
          (λ c. put_change-IsReadByStatus now b c known) h)
        h,
    if-pick (λ (r : List (Comment Content) × Option ℕ). All IsReadByStatus r.0) (is_valid id)
        (All-update_one IsReadByStatus id (status_change now status) cs
          (status_change-IsReadByStatus now status) h)
        h,
  )
