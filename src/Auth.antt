-- ===== src/Auth.antt =====
-- Who may call an operation: api/helpers/auth.js. The libraries jsonwebtoken and jwks-rsa are the
-- parameter `Jwt`. The callback's result is the `Outcome`: the payload put on the request, or 403.
pub mod Access
pub mod Login
use Prim.Native.Char.{code}
use Prim.Native.String.{◌∷◌ as cons}
use text.Mathlib.Text.{starts_with}
use eagle_api.Prelude.{
  given, or_else, ◌&&◌, ◌++◌, ◌==◌, ◌===◌, ◌||◌, ◌≡◌, ◌∷◌, Bool, List, Memᴰ, Option, String, [],
  any, false, if◌then◌else◌, includes, is_name, none, some, true, ℕ,
}

-- The module's constants and the environment that `verifyToken` reads.
pub record Config : Type 0 where
  pub issuer : String
  pub secret : String
  pub keycloak_enabled : String
  pub internal_api_key : Option String
  pub smoke_api_key : Option String
  pub sso_audience : Option String

pub record Request : Type 0 where
  pub method : String
  pub api_path : String
  pub scopes : Option (List String)
  pub anonymous_read : Bool
  pub api_key : Option String

-- A decoded token; `roles` is `realm_access.roles`, none where either is missing.
pub record Token : Type 0 where
  pub iss : Option String
  pub preferred_username : Option String
  pub roles : Option (List String)

pub record Payload : Type 0 where
  pub iss : Option String
  pub preferred_username : Option String
  pub roles : List String

pub data Outcome : Type 0 where
  granted : Payload → Outcome
  denied : Outcome

pub record Options : Type 0 where
  pub algorithms : List String
  pub issuer : String
  pub audience : Option String

-- What `jwt.decode` shows of a token: it throws, there is no key id, or there is one.
pub data Header : Type 0 where
  unreadable no_kid : Header
  kid : String → Header

-- `Signed t key a` says that the token's signature checks under the key by the algorithm `a`;
-- `verify` accepts a token only by an algorithm of its options.
pub record Jwt : Type 1 where
  pub decode : String → Header
  pub get_signing_key : String → Option String
  pub verify : String → String → Options → Option Token
  pub Signed : String → String → String → Type 0
  pub verify-Signed :
      (t key : String) (o : Options) (d : Token)
      → verify t key o ≡ some d
      → (a : String) × Memᴰ a o.algorithms × Signed t key a

abbrev pub jwt_bypass_roles : List String
jwt_bypass_roles = "sysadmin" ∷ "staff" ∷ []

abbrev pub api_key_methods : List String
api_key_methods = "GET" ∷ "HEAD" ∷ []

abbrev pub key_roles : List String
key_roles = "project-admin-staff" ∷ "project-team" ∷ "public" ∷ []

-- A string is truthy if it is not empty.
abbrev pub truthy : Option String → Option String
truthy none = none
truthy (some s) = if s === "" then none else some s

unfoldable pub safe_equal : Option String → Option String → Bool
safe_equal none none = true
safe_equal none (some b) = "" === b
safe_equal (some a) none = a === ""
safe_equal (some a) (some b) = a === b

unfoldable pub has_route_scope : Option (List String) → List String → List String → Bool
has_route_scope none caller bypass = true
has_route_scope (some []) caller bypass = true
has_route_scope (some (s ∷ ss)) caller bypass =
    any (includes caller) bypass || any (includes caller) (s ∷ ss)

until_space : String → String
until_space String.[] = ""
until_space (cons c s) = if code c == 32 then "" else cons c (until_space s)

after_space : String → String
after_space String.[] = ""
after_space (cons c s) = if code c == 32 then s else after_space s

-- `token.split(' ')[1]` of a token that holds a space.
unfoldable pub second_word : String → String
unfolding until_space after_space
second_word s = until_space (after_space s)

abbrev pub is_bearer : Option String → Option String
is_bearer none = none
is_bearer (some t) = if starts_with t "Bearer " then some t else none

abbrev pub public_payload : Payload
public_payload = record { iss = none; preferred_username = some "public"; roles = "public" ∷ [] }

module _ (config : Config) where
  abbrev pub key_payload : Payload
  key_payload = record {
    iss = some config.issuer;
    preferred_username = some "internal-service";
    roles = key_roles;
  }

  -- `INTERNAL_API_KEY`, or the legacy `SMOKE_API_KEY`.
  unfoldable pub configured_key : Option String
  configured_key = or_else (truthy config.internal_api_key) (truthy config.smoke_api_key)

  -- The request carries the configured key.
  unfoldable pub key_matches : Request → Bool
  unfolding configured_key safe_equal
  key_matches req = elim configured_key [
    | none ↦ false
    | some k ↦ elim (truthy req.api_key) [
      | none ↦ false
      | some given ↦ safe_equal (some given) (some k)
    ]
  ]

  -- What the key may do: read, on a route that one of its roles or `staff` opens.
  unfoldable pub key_allows : Request → Bool
  key_allows req =
      includes api_key_methods req.method
      && has_route_scope req.scopes (key_roles ++ "staff" ∷ []) []

  abbrev pub uses_keycloak : Bool
  uses_keycloak = config.keycloak_enabled === "true"

  unfoldable pub verify_options : Options
  verify_options = record {
    algorithms = if uses_keycloak then "RS256" ∷ [] else "HS256" ∷ [];
    issuer = config.issuer;
    audience = truthy config.sso_audience;
  }

  unfoldable pub is_anonymous_read : Request → Bool
  is_anonymous_read req = starts_with req.api_path "/public" || req.anonymous_read

  module _ (jwt : Jwt) where
    -- The test of a verified token by `_verifySecret`.
    unfoldable pub accept_token : Option (List String) → Token → Outcome
    accept_token scopes token = elim token.roles [
      | none ↦ denied
      | some roles ↦
          if has_route_scope scopes roles jwt_bypass_roles && is_name token.iss config.issuer
          then granted (record {
            iss = token.iss;
            preferred_username = token.preferred_username;
            roles = roles;
          })
          else denied
    ]

    unfoldable pub verify_secret : Option (List String) → String → String → Outcome
    verify_secret scopes token_string secret =
        elim (jwt.verify token_string secret verify_options) [
          | none ↦ denied
          | some token ↦ accept_token scopes token
        ]

    -- The key that a token is checked under, none where the request is refused before.
    unfoldable pub verification_key : String → Option String
    verification_key token_string =
        if uses_keycloak
        then elim (jwt.decode token_string) [
          | unreadable ↦ none
          | no_kid ↦ none
          | kid k ↦ jwt.get_signing_key k
        ]
        else if config.secret === "defaultSecret"
        then none
        else some config.secret

    unfoldable pub verify_bearer : Request → String → Outcome
    verify_bearer req token = elim (verification_key (second_word token)) [
      | none ↦ denied
      | some key ↦ verify_secret req.scopes (second_word token) key
    ]

    unfoldable pub verify_token : Request → Option String → Outcome
    verify_token req token =
        if key_matches req
        then if key_allows req then granted key_payload else denied
        else elim (is_bearer token) [
          | some t ↦ verify_bearer req t
          | none ↦ if is_anonymous_read req then granted public_payload else denied
        ]
