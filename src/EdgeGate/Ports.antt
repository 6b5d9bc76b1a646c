-- ===== src/EdgeGate/Ports.antt =====
-- That a port on the host does not get a request past api/middleware/edgeOnly.js.
use eagle_api.Prelude.{
  ◌++◌, ◌==◌, ◌===◌, ◌≡◌, ◌≢◌, ◌∷◌, Bool-cases, String, Text, [], any, arith, false, inl, inr,
  is_name, some, text_eq_iff, true, ap, ◌∙◌, eq_iff,
}
use eagle_api.Auth.{safe_equal, truthy}
use eagle_api.EdgeGate.{
  EdgeConfig, EdgeRequest, colon, edge_only, is_port, non_empty, refused, request_host, strip_port,
  text_or_empty,
}

-- A host with a port loses it, and nothing else.
strip_port-append :
    (h ds : Text)
    → any (λ c. c == colon) h ≡ false
    → is_port ds ≡ true
    → strip_port (h ++ colon ∷ ds) ≡ h
strip_port-append [] ds plain port = ground (arith, port)
strip_port-append (c ∷ cs) ds plain port =
    ground (arith, plain, strip_port-append cs ds (ground (arith, plain)) port)

module _ (to_lower : Text → Text) where
  request_host-port :
      (req : EdgeRequest) (h ds : Text)
      → any (λ c. c == colon) h ≡ false
      → is_port ds ≡ true
      → req.host ≡ some (h ++ colon ∷ ds)
      → request_host to_lower req ≡ to_lower h
  unfolding request_host
  request_host-port req h ds plain port host =
      ap (λ o. to_lower (strip_port (text_or_empty o))) host
      ∙ ap to_lower (strip_port-append h ds plain port)

  -- With the gate set to refuse, a request to the guarded host in any case and on any port is refused,
  -- unless it is the health check or carries the id of the front door.
  pub edge_only-refuses :
      (config : EdgeConfig) (req : EdgeRequest) (edge_host h ds : Text) (id : String)
      → non_empty config.edge_host ≡ some edge_host
      → truthy config.front_door_id ≡ some id
      → is_name config.mode "log" ≡ false
      → req.path ≢ "/api/health"
      → safe_equal req.azure_fdid (some id) ≡ false
      → any (λ c. c == colon) h ≡ false
      → is_port ds ≡ true
      → to_lower h ≡ to_lower edge_host
      → req.host ≡ some (h ++ colon ∷ ds)
      → edge_only to_lower config req ≡ refused
  unfolding edge_only
  edge_only-refuses config req edge_host h ds id set door enforced path wrong plain port same host =
      let guarded : request_host to_lower req ≡ to_lower edge_host =
        request_host-port req h ds plain port host ∙ same in
      elim (Bool-cases (req.path === "/api/health")) [
        | inl health ↦ absurd (path ((eq_iff req.path "/api/health").0 health))
        | inr other ↦ ground (
          arith,
          set,
          door,
          enforced,
          wrong,
          other,
          (text_eq_iff (request_host to_lower req) (to_lower edge_host)).1 guarded,
        )
      ]
