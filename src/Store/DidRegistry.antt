-- ===== src/Store/DidRegistry.antt =====
-- app/store/did_registry.py
use bu_iam.Prelude.{
  String, ◌≡◌, refl, Option, none, some, List, [], ◌∷◌, arith, ◌==◌, eq_iff, if◌then◌else◌,
}
use bu_iam.Json.{Fields}
use bu_iam.World.{World, DidRow}

-- INSERT … ON CONFLICT(did) DO UPDATE: a row that is there keeps its place.
unfoldable pub upsert_row : DidRow → List DidRow → List DidRow
upsert_row r [] = r ∷ []
upsert_row r (x ∷ xs) = if x.did == r.did then r ∷ xs else x ∷ upsert_row r xs

unfoldable pub find_did : String → List DidRow → Option Fields
find_did d [] = none
find_did d (x ∷ xs) = if x.did == d then some x.document else find_did d xs

unfoldable pub upsert_did_document : String → String → Fields → World → World
unfolding upsert_row
upsert_did_document did subject_id document w = record w {
  did_documents =
      upsert_row (record { did = did; subject_id = subject_id; document = document })
        w.did_documents;
}

unfoldable pub get_did_document : String → World → Option Fields
unfolding find_did
get_did_document did w = find_did did w.did_documents

find-upsert_row :
    (d : String) (r : DidRow) (rows : List DidRow)
    → find_did d (upsert_row r rows) ≡ (if r.did == d then some r.document else find_did d rows)
unfolding find_did upsert_row
find-upsert_row d r [] = refl
find-upsert_row d r (x ∷ xs) =
    ground (arith, find-upsert_row d r xs, eq_iff x.did r.did, eq_iff r.did d, eq_iff x.did d)

-- A document that is written is read back under its DID, and no other DID's document changes.
pub get_did_document-upsert :
    (d did subject_id : String) (document : Fields) (w : World)
    → get_did_document d (upsert_did_document did subject_id document w)
      ≡ (if did == d then some document else get_did_document d w)
unfolding get_did_document upsert_did_document
get_did_document-upsert d did subject_id document w = find-upsert_row d _ w.did_documents
