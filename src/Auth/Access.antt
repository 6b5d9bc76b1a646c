-- ===== src/Auth/Access.antt =====
-- Which requests `verifyToken` of api/helpers/auth.js lets through.
use eagle_api.Prelude.{
  Shares, any-includes_iff, Mem→includes, includes→Mem, ◌&&◌, ◌++◌, ◌⊎◌, ap, sym, refl, ◌||◌, ◌≡◌,
  ◌↔◌, ◌∷◌, Bool, List, Memᴰ, Option, Option-cases, Bool-cases, String, [], arith, false,
  if◌then◌else◌, includes, inl, inr, none, subst, is_name_iff, some, true,
}
use eagle_api.Auth.{
  key_roles, Config, Request, Token, Payload, granted, Jwt, jwt_bypass_roles, api_key_methods,
  key_payload, key_matches, key_allows, is_bearer, public_payload, is_anonymous_read, accept_token,
  verify_secret, verification_key, verify_bearer, verify_token, second_word, has_route_scope,
  verify_options, uses_keycloak,
}

only_algorithm :
    (b : Bool) {a : String}
    → Memᴰ a (if b then "RS256" ∷ [] else "HS256" ∷ [])
    → a ≡ (if b then "RS256" else "HS256")
only_algorithm true (Memᴰ.head e) = e
only_algorithm true (Memᴰ.tail m) = elim m [ ]
only_algorithm false (Memᴰ.head e) = e
only_algorithm false (Memᴰ.tail m) = elim m [ ]

or_iff : (a b : Bool) → ((a || b) ≡ true) ↔ ((a ≡ true) ⊎ (b ≡ true))
or_iff a b = ground arith

and_iff : (a b : Bool) → ((a && b) ≡ true) ↔ ((a ≡ true) × (b ≡ true))
and_iff a b = ground arith

not_shared : {roles : List String} → Shares [] roles → ⊥
not_shared (s, m, n) = elim m [ ]

-- The route declares no scopes, or one that the caller holds.
abbrev pub Opens : Option (List String) → List String → Type 0
Opens none roles = Unit {0}
Opens (some []) roles = Unit {0}
Opens (some (s ∷ ss)) roles = Shares (s ∷ ss) roles

has_route_scope_iff :
    (scopes : Option (List String)) (roles bypass : List String)
    → (has_route_scope scopes roles bypass ≡ true) ↔ (Opens scopes roles ⊎ Shares bypass roles)
unfolding has_route_scope
has_route_scope_iff none roles bypass = (λ _. inl tt, λ _. refl)
has_route_scope_iff (some []) roles bypass = (λ _. inl tt, λ _. refl)
has_route_scope_iff (some (s ∷ ss)) roles bypass =
    let (b, b') = any-includes_iff bypass roles in
    let (c, c') = any-includes_iff (s ∷ ss) roles in
    (
      λ h. elim ((or_iff _ _).0 h) [ inl e ↦ inr (b e) | inr e ↦ inl (c e) ],
      λ h. (or_iff _ _).1 (elim h [ inl o ↦ inr (c' o) | inr o ↦ inl (b' o) ]),
    )

module _ (config : Config) (jwt : Jwt) where
  -- The token `d` was verified and may call the route of `req`; `p` is its payload.
  pub record Accepted (req : Request) (t : String) (p : Payload) : Type 0 where
    pub key : String
    pub token : Token
    pub keyed : verification_key config jwt (second_word t) ≡ some key
    pub verified : jwt.verify (second_word t) key (verify_options config) ≡ some token
    pub roles : token.roles ≡ some p.roles
    pub scoped : Opens req.scopes p.roles ⊎ Shares jwt_bypass_roles p.roles
    pub issued : token.iss ≡ some config.issuer
    pub same_iss : p.iss ≡ token.iss
    pub same_name : p.preferred_username ≡ token.preferred_username

  accept_token_iff :
      (scopes : Option (List String)) (d : Token) (p : Payload)
      → (accept_token config jwt scopes d ≡ granted p) ↔ (
          (d.roles ≡ some p.roles)
          × (has_route_scope scopes p.roles jwt_bypass_roles ≡ true)
          × (d.iss ≡ some config.issuer)
          × (p.iss ≡ d.iss)
          × (p.preferred_username ≡ d.preferred_username))
  unfolding accept_token
  accept_token_iff scopes d p = ground (arith, is_name_iff d.iss config.issuer)

  verify_bearer_sound :
      (req : Request) (t : String) (p : Payload)
      → verify_bearer config jwt req t ≡ granted p
      → Accepted req t p
  unfolding verify_bearer verify_secret
  verify_bearer_sound req t p h =
      elim (Option-cases (verification_key config jwt (second_word t))) [
        | inl missing ↦ absurd (ground arith)
        | inr (key, keyed) ↦
            elim (Option-cases (jwt.verify (second_word t) key (verify_options config))) [
              | inl refused ↦ absurd (ground arith)
              | inr (token, verified) ↦
                  let a = (accept_token_iff req.scopes token p).0 (ground arith) in
                  record {
                    key = key;
                    token = token;
                    keyed = keyed;
                    verified = verified;
                    roles = a.0;
                    scoped = (has_route_scope_iff req.scopes p.roles jwt_bypass_roles).0 a.1;
                    issued = a.2;
                    same_iss = a.3;
                    same_name = a.4;
                  }
            ]
      ]

  verify_bearer_complete :
      (req : Request) (t : String) (p : Payload)
      → Accepted req t p
      → verify_bearer config jwt req t ≡ granted p
  unfolding verify_bearer verify_secret
  verify_bearer_complete req t p a =
      rw (a.keyed, verify_bearer)
        (rw (a.verified, verify_secret)
          ((accept_token_iff req.scopes a.token p).1 (
            a.roles,
            (has_route_scope_iff req.scopes p.roles jwt_bypass_roles).1 a.scoped,
            a.issued,
            a.same_iss,
            a.same_name,
          )))

  -- `verifyToken` grants a request exactly in these ways.
  pub data Authorized (req : Request) (token : Option String) (p : Payload) : Type 0 where
    by_key :
        key_matches config req ≡ true
        → Memᴰ req.method api_key_methods
        → Opens req.scopes (key_roles ++ "staff" ∷ [])
        → p ≡ key_payload config
        → Authorized req token p
    by_token :
        {t : String}
        → key_matches config req ≡ false
        → is_bearer token ≡ some t
        → Accepted req t p
        → Authorized req token p
    anonymous :
        key_matches config req ≡ false
        → is_bearer token ≡ none
        → is_anonymous_read config req ≡ true
        → p ≡ public_payload
        → Authorized req token p

  key_allows_iff :
      (req : Request)
      → (key_allows config req ≡ true)
        ↔ (Memᴰ req.method api_key_methods × Opens req.scopes (key_roles ++ "staff" ∷ []))
  unfolding key_allows
  key_allows_iff req =
      let (scope, scope') = has_route_scope_iff req.scopes (key_roles ++ "staff" ∷ []) [] in
      (
        λ h.
            let (method, open_route) = (and_iff _ _).0 h in
            (
              includes→Mem api_key_methods req.method method,
              elim (scope open_route) [
                | inl o ↦ o
                | inr none_shared ↦ absurd (not_shared none_shared)
              ],
            ),
        λ h. (and_iff _ _).1 (Mem→includes api_key_methods req.method h.0, scope' (inl h.1)),
      )

  verify_token_sound :
      (req : Request) (token : Option String) (p : Payload)
      → verify_token config jwt req token ≡ granted p
      → Authorized req token p
  unfolding verify_token
  verify_token_sound req token p h = elim (Bool-cases (key_matches config req)) [
    | inl k ↦ elim (Bool-cases (key_allows config req)) [
      | inl allowed ↦
          let (method, scope) = (key_allows_iff req).0 allowed in
          by_key k method scope (ground arith)
      | inr refused ↦ absurd (ground arith)
    ]
    | inr k ↦ elim (Option-cases (is_bearer token)) [
      | inl b ↦ anonymous k b (ground arith) (ground arith)
      | inr (t, b) ↦ by_token k b (verify_bearer_sound req t p (ground arith))
    ]
  ]

  verify_token_complete :
      (req : Request) (token : Option String) (p : Payload)
      → Authorized req token p
      → verify_token config jwt req token ≡ granted p
  unfolding verify_token
  verify_token_complete req token p (by_key k method scope e) =
      rw k (rw ((key_allows_iff req).1 (method, scope)) (ap granted (sym e)))
  verify_token_complete req token p (by_token {t} k b a) =
      rw k (rw b (verify_bearer_complete req t p a))
  verify_token_complete req token p (anonymous k b r e) = ground arith

  -- A request is granted with the payload `p` exactly in one of three ways: it carries the
  -- configured key, only reads, and its route is open to the key; or it carries no such key but a
  -- bearer token that verifies, was issued by the issuer, and has roles for the route; or it has
  -- neither and the operation may be read anonymously. `p` is then the key's payload, the token's,
  -- or the public one.
  pub verify_token_iff :
      (req : Request) (token : Option String) (p : Payload)
      → (verify_token config jwt req token ≡ granted p) ↔ Authorized req token p
  verify_token_iff req token p = (verify_token_sound req token p, verify_token_complete req token p)

  -- What a request that is no read needs, on a route with scopes that is not read anonymously: a
  -- token signed by the one algorithm of the mode, RS256 under Keycloak and else HS256, whose roles
  -- hold a bypass role or a scope of the route.
  pub write_needs_signed_token :
      (req : Request) (token : Option String) (p : Payload) (s : String) (ss : List String)
      → includes api_key_methods req.method ≡ false
      → is_anonymous_read config req ≡ false
      → req.scopes ≡ some (s ∷ ss)
      → verify_token config jwt req token ≡ granted p
      → (t key : String) × (is_bearer token ≡ some t)
        × jwt.Signed (second_word t) key (if uses_keycloak config then "RS256" else "HS256")
        × (Shares (s ∷ ss) p.roles ⊎ Shares jwt_bypass_roles p.roles)
  unfolding verify_options
  write_needs_signed_token req token p s ss write closed scopes h =
      elim (verify_token_sound req token p h)
        as (λ _.
          (t key : String) × (is_bearer token ≡ some t)
          × jwt.Signed (second_word t) key (if uses_keycloak config then "RS256" else "HS256")
          × (Shares (s ∷ ss) p.roles ⊎ Shares jwt_bypass_roles p.roles)) [
            | by_key k method scope e ↦
                absurd (ground (arith, Mem→includes api_key_methods req.method method))
            | by_token {t} k b a ↦
                let (alg, allowed, signed) =
                  jwt.verify-Signed (second_word t) a.key (verify_options config) a.token
                    a.verified in
                (
                  t,
                  a.key,
                  b,
                  subst (jwt.Signed (second_word t) a.key)
                      (only_algorithm (uses_keycloak config) allowed) signed,
                  subst (λ sc. Opens sc p.roles ⊎ Shares jwt_bypass_roles p.roles) scopes a.scoped,
                )
            | anonymous k b r e ↦ absurd (ground arith)
          ]
