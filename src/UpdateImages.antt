-- ===== src/UpdateImages.antt =====
-- The documents of an Update and their public state: the document checks of
-- api/helpers/updateRules.js, api/helpers/documentPublish.js with publish and unPublish of
-- api/helpers/actions.js (the schema of a Document has no isPublished), and publishFor and release
-- of api/helpers/updateImages.js. The collection is the list of its documents; ids of documents are
-- texts, as the source compares them, and projects are numbers, as object ids are. Whether a save
-- goes through, and what the other Updates show at a query, are arguments; the query of publishFor
-- answers. The audit record and the DEMI push that follow a save do not change the document and are
-- left out.
pub mod Publication
pub mod Release
use eagle_api.Prelude.{
  ◌&&◌, ◌++◌, ◌==◌, ◌===◌, ◌||◌, ◌∷◌, Bool, List, Option, String, [], false, filter, if◌then◌else◌,
  includes, is_name, map, none, not, some, true, ℕ,
}
use eagle_api.UpdateRules.{is_blank_name}

pub record Doc : Type 0 where
  pub id : String
  pub schema_name : String
  pub document_source : Option String
  pub project : Option ℕ
  pub read : List String
  pub is_deleted : Bool
  pub eao_status : Option String

-- The fields of an Update that name documents; an absent entry of an array is none.
pub record Shows : Type 0 where
  pub featured_image : Option String
  pub images : List (Option String)
  pub attachments : List (Option String)
  pub project : Option ℕ

abbrev pub image_source : String
image_source = "UPDATE"

-- `idList`: the ids that are not blank, each once. `seen` are those before.
abbrev pub id_list_from : List String → List (Option String) → List String
id_list_from seen [] = []
id_list_from seen (none ∷ vs) = id_list_from seen vs
id_list_from seen (some v ∷ vs) =
    let rest = id_list_from (v ∷ seen) vs in
    let same = id_list_from seen vs in
    if is_blank_name (some v) || includes seen v then same else v ∷ rest

abbrev pub id_list : List (Option String) → List String
id_list vs = id_list_from [] vs

unfoldable pub image_document_ids : Shows → List String
image_document_ids u = id_list (u.featured_image ∷ u.images)

unfoldable pub shown_document_ids : Shows → List String
shown_document_ids u = id_list (map some (image_document_ids u) ++ u.attachments)

abbrev pub is_public : Doc → Bool
is_public d = includes d.read "public"

abbrev pub same_project : Option ℕ → Option ℕ → Bool
same_project none none = true
same_project (some p) (some q) = p == q
same_project _ _ = false

-- The test of `nonPublicDocumentIds` on a document that its query found.
unfoldable pub passes : Shows → Doc → Bool
passes u d =
    is_public d
    || (is_name d.document_source image_source
        && includes (image_document_ids u) d.id
        && same_project d.project u.project)

unfoldable pub passing_ids : Shows → List Doc → List String
passing_ids u docs =
    map (λ d. d.id)
      (filter
        (λ d.
          includes (shown_document_ids u) d.id
          && (d.schema_name === "Document")
          && not d.is_deleted
          && passes u d)
        docs)

unfoldable pub non_public_document_ids : Shows → List Doc → List String
non_public_document_ids u docs =
    filter (λ i. not (includes (passing_ids u docs) i)) (shown_document_ids u)

-- `actions.publish`: the row, and whether it must be saved.
abbrev pub publish_row : Doc → Doc
publish_row d = record d { read = d.read ++ "public" ∷ [] }

abbrev pub unpublish_row : Doc → Doc
unpublish_row d = record d { read = filter (λ r. not (r === "public")) d.read }

-- What is stored after the saves of a call, and whether it threw.
pub record Attempt : Type 0 where
  pub stored : Doc
  pub is_saved : Bool

-- Whether each of the two saves of a call goes through, by document.
abbrev pub Saves : Type 0
Saves = String → Bool × Bool

unfoldable pub publish : Saves → Doc → Attempt
publish saves d =
    let marked = record d { eao_status = some "Published" } in
    if not (saves d.id).0
    then record { stored = d; is_saved = false }
    else if is_public d
    then record { stored = marked; is_saved = true }
    else if (saves d.id).1
    then record { stored = publish_row marked; is_saved = true }
    else record { stored = marked; is_saved = false }

unfoldable pub unpublish : Saves → Option String → Doc → Attempt
unpublish saves eao_status d =
    let marked = record d { eao_status = eao_status } in
    if not (saves d.id).0
    then record { stored = d; is_saved = false }
    else if not (is_public d)
    then record { stored = marked; is_saved = true }
    else if (saves d.id).1
    then record { stored = unpublish_row marked; is_saved = true }
    else record { stored = marked; is_saved = false }

-- `updateImageDocs`: uploaded images among the ids.
unfoldable pub is_update_image : List String → Doc → Bool
is_update_image ids d =
    includes ids d.id && (d.schema_name === "Document") && is_name d.document_source image_source

-- The query of `publishFor`.
unfoldable pub awaits_publication : Shows → Doc → Bool
awaits_publication u d =
    is_update_image (image_document_ids u) d
    && not (is_public d)
    && same_project d.project u.project

-- The collection, the ids of the documents that the loop has published, and whether it reached its
-- end.
pub record Progress : Type 0 where
  pub docs : List Doc
  pub published : List String
  pub is_complete : Bool

-- The loop of `publishFor` over the documents that its query found.
unfoldable pub publish_each : Saves → (Doc → Bool) → List Doc → Progress
publish_each saves selects [] = record { docs = []; published = []; is_complete = true }
publish_each saves selects (d ∷ ds) =
    let attempt = publish saves d in
    let rest = publish_each saves selects ds in
    if not (selects d)
    then record rest { docs = d ∷ rest.docs }
    else if attempt.is_saved
    then record rest { docs = attempt.stored ∷ rest.docs; published = d.id ∷ rest.published }
    else record { docs = attempt.stored ∷ ds; published = []; is_complete = false }

-- The documents that the other published Updates show at a query, none where the query throws.
abbrev pub ShownElsewhere : Type 0
ShownElsewhere = Option (String → Bool)

-- The first loop of `release`: a save that fails is logged, and the loop goes on.
abbrev pub unpublish_each : Saves → (Doc → Bool) → List Doc → List (Doc × Bool)
unpublish_each saves selects [] = []
unpublish_each saves selects (d ∷ ds) =
    let attempt = unpublish saves none d in
    let rest = unpublish_each saves selects ds in
    if selects d then (attempt.stored, attempt.is_saved) ∷ rest else (d, false) ∷ rest

-- The second loop, over what the first one unpublished: a failure ends it.
abbrev pub republish_each : Saves → (String → Bool) → List (Doc × Bool) → List Doc
republish_each saves shown [] = []
republish_each saves shown ((d, unpublished) ∷ ds) =
    let attempt = publish saves d in
    let rest = republish_each saves shown ds in
    if not (unpublished && shown d.id)
    then d ∷ rest
    else if attempt.is_saved
    then attempt.stored ∷ rest
    else attempt.stored ∷ map (λ e. e.0) ds

unfoldable pub release_doc : List String → (String → Bool) → Doc → Bool
release_doc ids shown d = is_update_image ids d && is_public d && not (shown d.id)

-- `release`, with the saves of both loops and the answers of both queries.
unfoldable pub release :
    Saves → Saves → List String → ShownElsewhere → ShownElsewhere → List Doc → List Doc
release unsaves saves ids none second docs = docs
release unsaves saves ids (some shown) none docs =
    map (λ e. e.0) (unpublish_each unsaves (release_doc ids shown) docs)
release unsaves saves ids (some shown) (some now_shown) docs =
    republish_each saves now_shown (unpublish_each unsaves (release_doc ids shown) docs)

-- `publishFor`: the collection, and whether it returned; where it throws, what it published is
-- released again.
unfoldable pub publish_for :
    Saves → Saves → Saves → ShownElsewhere → ShownElsewhere → Shows → List Doc → List Doc × Bool
publish_for saves unsaves resaves first second u docs =
    let p = publish_each saves (awaits_publication u) docs in
    if p.is_complete
    then (p.docs, true)
    else (release unsaves resaves p.published first second p.docs, false)
