-- ===== src/EdgeGate.antt =====
-- The guard of the direct host: api/middleware/edgeOnly.js. Lower case is a parameter, as texts are
-- lists of code units; the log line of a refusal is left out.
pub mod Ports
use eagle_api.Prelude.{
  ◌&&◌, ◌==◌, ◌===◌, ◌||◌, ◌∷◌, Bool, List, Option, String, Text, [], all, false, if◌then◌else◌,
  is_name, leb, none, not, some, text_eq, true, ℕ,
}
use eagle_api.Auth.{safe_equal, truthy}

-- The environment.
pub record EdgeConfig : Type 0 where
  pub edge_host : Option Text
  pub front_door_id : Option String
  pub mode : Option String

pub record EdgeRequest : Type 0 where
  pub path : String
  pub host : Option Text
  pub azure_fdid : Option String

pub data Gate : Type 0 where
  served refused : Gate

abbrev pub colon : ℕ
colon = 58

abbrev pub is_digit : ℕ → Bool
is_digit c = leb 48 c && leb c 57

-- The rest of a host after a colon is a port: `\d+$`.
abbrev pub is_port : Text → Bool
is_port [] = false
is_port (c ∷ cs) = all is_digit (c ∷ cs)

-- `replace(/:\d+$/, '')`.
abbrev pub strip_port : Text → Text
strip_port [] = []
strip_port (c ∷ cs) =
    let rest = strip_port cs in if (c == colon) && is_port cs then [] else c ∷ rest

-- An unset or empty text counts as not set.
abbrev pub non_empty : Option Text → Option Text
non_empty none = none
non_empty (some []) = none
non_empty (some (c ∷ cs)) = some (c ∷ cs)

abbrev pub text_or_empty : Option Text → Text
text_or_empty none = []
text_or_empty (some t) = t

module _ (to_lower : Text → Text) where
  unfoldable pub request_host : EdgeRequest → Text
  request_host req = to_lower (strip_port (text_or_empty req.host))

  unfoldable pub edge_only : EdgeConfig → EdgeRequest → Gate
  unfolding request_host
  edge_only config req = elim (non_empty config.edge_host) [
    | none ↦ served
    | some edge_host ↦ elim (truthy config.front_door_id) [
      | none ↦ served
      | some id ↦
          if req.path === "/api/health"
          then served
          else if not (text_eq (request_host req) (to_lower edge_host))
          then served
          else if safe_equal req.azure_fdid (some id)
          then served
          else if is_name config.mode "log"
          then served
          else refused
    ]
  ]
