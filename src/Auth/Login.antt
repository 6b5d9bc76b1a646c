-- ===== src/Auth/Login.antt =====
-- Passwords: `checkAuthentication`, `setPassword` and `hashPassword` of api/helpers/auth.js. The
-- derivation (pbkdf2), the random salt, `toLowerCase` and the user collection are parameters.
use eagle_api.Prelude.{
  ◌===◌, ◌≡◌, ◌≢◌, ◌↔◌, Bool, Option, String, arith, eq_iff, if◌then◌else◌, is_name, is_name_iff,
  none, some,
}

pub record User : Type 0 where
  pub username : String
  pub password : Option String
  pub salt : Option String

-- The arguments of the callback: a user, the message for an invalid login, or an error.
pub data Login : Type 0 where
  logged_in : User → Login
  invalid error : Login

-- The reply of `User.findOne`.
pub data Found : Type 0 where
  user : User → Found
  nobody failed : Found

module _ (pbkdf2 : String → String → String) where
  -- The password as it is stored: derived with the salt where both are there and not empty.
  unfoldable pub hash_password : Option String → String → String
  hash_password none password = password
  hash_password (some salt) password =
      if salt === "" then password else if password === "" then password else pbkdf2 password salt

  unfoldable pub set_password : String → User → User
  set_password random_salt u = record u {
    salt = some random_salt;
    password = elim u.password [ none ↦ none | some p ↦ some (hash_password (some random_salt) p) ];
  }

  unfoldable pub authenticate : User → String → Bool
  authenticate u password = is_name u.password (hash_password u.salt password)

  module _ (to_lower : String → String) (find_one : String → Found) where
    -- `username` and `password` are none where they are no strings.
    unfoldable pub check_authentication : Option String → Option String → Login
    check_authentication none password = invalid
    check_authentication (some name) none = invalid
    check_authentication (some name) (some password) =
        if name === ""
        then invalid
        else if password === ""
        then invalid
        else elim (find_one (to_lower name)) [
          | nobody ↦ invalid
          | failed ↦ error
          | user u ↦ if authenticate u password then logged_in u else invalid
        ]

    -- A login succeeds exactly with a name and a password that are not empty, for the user stored
    -- under the lower-case name, if the password hashed with that user's salt is the stored one.
    pub check_authentication_iff :
        (name password : String) (u : User)
        → (check_authentication (some name) (some password) ≡ logged_in u) ↔ (
            (name ≢ "")
            × (password ≢ "")
            × (find_one (to_lower name) ≡ user u)
            × (u.password ≡ some (hash_password u.salt password)))
    unfolding check_authentication authenticate
    check_authentication_iff name password u = ground (
      arith,
      eq_iff name "",
      eq_iff password "",
      is_name_iff u.password (hash_password u.salt password),
    )

    -- Once `setPassword` has stored a password that is not empty, the user logs in with it, under
    -- any name whose lower-case form finds the stored user; and any other password that logs in
    -- has the same derived key.
    pub set_password-check :
        (name password other salt : String) (u : User)
        → u.password ≡ some password
        → name ≢ ""
        → password ≢ ""
        → other ≢ ""
        → salt ≢ ""
        → find_one (to_lower name) ≡ user (set_password salt u)
        → let stored = set_password salt u in
          (check_authentication (some name) (some password) ≡ logged_in stored)
          × ((check_authentication (some name) (some other) ≡ logged_in stored)
              ↔ (pbkdf2 password salt ≡ pbkdf2 other salt))
    unfolding set_password hash_password
    set_password-check name password other salt u e hn hp ho hs f = ground (
      arith,
      check_authentication_iff name password (set_password salt u),
      check_authentication_iff name other (set_password salt u),
      eq_iff salt "",
      eq_iff password "",
      eq_iff other "",
    )
