-- ===== src/Examples/Tokens.antt =====
-- A bearer token on a staff route, the internal key, and a stored password.
use eagle_api.Prelude.{
  ◌===◌, ◌≡◌, ◌≢◌, ◌↔◌, ◌∷◌, List-cases, Memᴰ, Option, String, [], arith, eq_iff, false,
  if◌then◌else◌, inl, inr, is_name, none, refl, some, Bool-cases,
}
use eagle_api.Auth.{
  Config, Header, Jwt, Options, Payload, Request, Token, accept_token, configured_key, denied,
  granted, has_route_scope, is_anonymous_read, key_allows, key_matches, safe_equal, second_word,
  verification_key, verify_bearer, verify_options, verify_secret, verify_token,
}
use eagle_api.Auth.Access.{Authorized, verify_token_iff}
use eagle_api.Auth.Login.{
  Found, Login, User, check_authentication, set_password, set_password-check,
}

abbrev config : Config
config = record {
  issuer = "eao";
  secret = "s";
  keycloak_enabled = "true";
  internal_api_key = some "k";
  smoke_api_key = none;
  sso_audience = none;
}

abbrev staff_token : Token
staff_token = record {
  iss = some "eao";
  preferred_username = some "ann";
  roles = some ("staff" ∷ []);
}

-- A library that knows one token, by any algorithm it is offered.
abbrev verify_known : String → String → Options → Option Token
verify_known t key o =
    if t === "good" then elim o.algorithms [ [] ↦ none | a ∷ rest ↦ some staff_token ] else none

verify_known-Signed :
    (t key : String) (o : Options) (d : Token)
    → verify_known t key o ≡ some d
    → (a : String) × Memᴰ a o.algorithms × (t ≡ "good")
verify_known-Signed t key o d h = elim (Bool-cases (t === "good")) [
  | inl good ↦ elim (List-cases o.algorithms) [
    | inl e ↦ absurd (ground arith)
    | inr (a, rest, e) ↦ (a, rw e (Memᴰ.head refl), (eq_iff t "good").0 good)
  ]
  | inr other ↦ absurd (ground arith)
]

abbrev known : Jwt
known = record {
  decode = λ t. Header.kid "1";
  get_signing_key = λ k. some "pem";
  verify = verify_known;
  Signed = λ t key a. t ≡ "good";
  verify-Signed = verify_known-Signed;
}

abbrev post : Request
post = record {
  method = "POST";
  api_path = "/project";
  scopes = some ("staff" ∷ []);
  anonymous_read = false;
  api_key = none;
}

abbrev staff_payload : Payload
staff_payload = record { iss = some "eao"; preferred_username = some "ann"; roles = "staff" ∷ [] }

tokens : Unit {0}
unfolding verify_token key_matches configured_key verify_bearer verification_key verify_secret
    verify_options accept_token has_route_scope is_name second_word is_anonymous_read key_allows
    safe_equal
tokens = tt

post_granted : verify_token config known post (some "Bearer good") ≡ granted staff_payload
unfolding tokens
post_granted = refl

-- The key only reads.
key_refused : verify_token config known (record post { api_key = some "k" }) none ≡ denied
unfolding tokens
key_refused = refl

verify_token_iff_example :
    (verify_token config known post (some "Bearer good") ≡ granted staff_payload)
    ↔ Authorized config known post (some "Bearer good") staff_payload
verify_token_iff_example = verify_token_iff config known post (some "Bearer good") staff_payload

post_closed : is_anonymous_read config post ≡ false
unfolding is_anonymous_read
post_closed = refl

not_empty : (s : String) → (s === "") ≡ false → s ≢ ""
not_empty s h e = absurd (ground (arith, eq_iff s ""))

-- A derivation that puts the salt in front.
abbrev derive : String → String → String
derive password salt = if salt === "pepper" then "derived" else password

abbrev ann : User
ann = record { username = "ann"; password = some "pw"; salt = none }

abbrev find : String → Found
find name = if name === "ann" then Found.user (set_password derive "pepper" ann) else Found.nobody

set_password-check_example :
    let stored = set_password derive "pepper" ann in
    (check_authentication derive (λ s. s) find (some "ann") (some "pw") ≡ Login.logged_in stored)
    × ((check_authentication derive (λ s. s) find (some "ann") (some "px") ≡ Login.logged_in stored)
        ↔ (derive "pw" "pepper" ≡ derive "px" "pepper"))
set_password-check_example =
    set_password-check derive (λ s. s) find "ann" "pw" "px" "pepper" ann refl (not_empty "ann" refl)
      (not_empty "pw" refl) (not_empty "px" refl) (not_empty "pepper" refl) refl
