-- ===== src/Documents/Effects.antt =====
-- What the writes of documents do to later reads.
use cppbackend_api.Base.{
  ℕ, ◌≡◌, refl, sym, ap, ◌∙◌, true, false, not, ◌&&◌, inl, inr, Option, none, some, List, [], ◌∷◌,
  ◌++◌, String, arith, str_eq, eq_refl, eq_iff, if◌then◌else◌, is_empty, any, find_first, select,
  update_where, Bool-cases, is_some, Option-cases,
}
use cppbackend_api.Domain.Result.{ok, err, is_ok, ApiResponse, respond}
use cppbackend_api.Db.{Outcome, commits, refused, rolled_back, committed}
use cppbackend_api.Documents.{
  DocumentRow, Jsonb, document, inserted_row, insert_document, is_document, find_document,
  update_document, with_data, remove_document,
}
use cppbackend_api.Documents.UseCases.{
  CreateDocumentRequest, DocumentResponse, document_response, create_document, get_document_by_id,
  change_document, delete_document, not_found,
}

find_first-inserted :
    (collection id json : String) (now : ℕ) (rows : List DocumentRow)
    → any (λ r. str_eq r.id id) rows ≡ false
    → find_first (is_document collection id) (rows ++ inserted_row now id collection json ∷ [])
      ≡ some (inserted_row now id collection json)
find_first-inserted collection id json now [] h = ground (arith, eq_refl collection, eq_refl id)
find_first-inserted collection id json now (r ∷ rows) h =
    ground (arith, find_first-inserted collection id json now rows)

-- A document that is created is read back under its id and collection, in the canonical text of its
-- JSON: where the fields are given, the JSON is valid, the call commits and draws an id that no
-- document has.
pub create_document-get :
    (j : Jsonb) (now later : ℕ) (drawn canonical : String) (rows : List DocumentRow)
    (req : CreateDocumentRequest)
    → is_empty req.collection ≡ false
    → is_empty req.data_text ≡ false
    → is_empty drawn ≡ false
    → j.to_jsonb req.data_text ≡ some canonical
    → any (λ r. str_eq r.id drawn) rows ≡ false
    → get_document_by_id commits later
        (create_document j commits now drawn rows req).1
        req.collection
        drawn
      ≡ ok (
          respond
            (record {
              id = drawn;
              collection = req.collection;
              data_text = canonical;
              created_at = later;
              updated_at = later;
            })
            "Document retrieved successfully"
            200
            later)
unfolding create_document get_document_by_id insert_document find_document
create_document-get j now later drawn canonical rows req a b c valid fresh =
    ground (arith, find_first-inserted req.collection drawn canonical now rows fresh)

insert_document-lost :
    (j : Jsonb) (o : Outcome) (now : ℕ) (drawn : String) (rows : List DocumentRow)
    (collection json : String)
    → (committed o && is_some (j.to_jsonb json)) ≡ false
    → (insert_document j o now drawn rows collection json).1 ≡ rows
unfolding insert_document
insert_document-lost j commits now drawn rows collection json h = ground arith
insert_document-lost j refused now drawn rows collection json h = ground arith
insert_document-lost j rolled_back now drawn rows collection json h = ground arith

-- A creation with both fields given is answered as created whatever became of it: also where the
-- JSON is not valid or the statement does not commit, so that nothing was stored.
pub create_document-unchecked :
    (j : Jsonb) (o : Outcome) (now : ℕ) (drawn : String) (rows : List DocumentRow)
    (req : CreateDocumentRequest)
    → is_empty req.collection ≡ false
    → is_empty req.data_text ≡ false
    → (committed o && is_some (j.to_jsonb req.data_text)) ≡ false
    → let created = create_document j o now drawn rows req in
      (is_ok created.0 ≡ true) × (created.1 ≡ rows)
unfolding create_document
create_document-unchecked j o now drawn rows req a b lost =
    rw a (rw b (refl, insert_document-lost j o now drawn rows req.collection req.data_text lost))

-- A row that is found has the collection and the id.
find_first-names :
    (collection id : String) (rows : List DocumentRow) (r : DocumentRow)
    → find_first (is_document collection id) rows ≡ some r
    → (r.collection_name ≡ collection) × (r.id ≡ id)
find_first-names collection id [] r h = absurd (cc h)
find_first-names collection id (q ∷ rows) r h = elim (Bool-cases (is_document collection id q)) [
  | inl e ↦ ground (arith, eq_iff q.collection_name collection, eq_iff q.id id)
  | inr e ↦ find_first-names collection id rows r (sym (rw e) ∙ h)
]

abbrev over : (DocumentRow → DocumentRow) → Option DocumentRow → Option DocumentRow
over f none = none
over f (some r) = some (f r)

find_first-updated :
    (now : ℕ) (canonical collection id : String) (rows : List DocumentRow)
    → find_first
        (is_document collection id)
        (update_where (is_document collection id) (with_data now canonical) rows)
      ≡ over (with_data now canonical) (find_first (is_document collection id) rows)
find_first-updated now canonical collection id [] = refl
find_first-updated now canonical collection id (r ∷ rows) =
    ground (arith, find_first-updated now canonical collection id rows)

-- A row is not both of two documents.
module _ (c i collection id : String) (other : (str_eq c collection && str_eq i id) ≡ false) where
  find_first-updated_other :
      (now : ℕ) (canonical : String) (rows : List DocumentRow)
      → find_first
          (is_document c i)
          (update_where (is_document collection id) (with_data now canonical) rows)
        ≡ find_first (is_document c i) rows
  find_first-updated_other now canonical [] = refl
  find_first-updated_other now canonical (r ∷ rows) = ground (
    arith,
    find_first-updated_other now canonical rows,
    eq_iff r.collection_name c,
    eq_iff r.collection_name collection,
    eq_iff r.id i,
    eq_iff r.id id,
    eq_iff c collection,
    eq_iff i id,
  )

  find_first-removed_other :
      (rows : List DocumentRow)
      → find_first (is_document c i) (select (λ r. not (is_document collection id r)) rows)
        ≡ find_first (is_document c i) rows
  find_first-removed_other [] = refl
  find_first-removed_other (r ∷ rows) = ground (
    arith,
    find_first-removed_other rows,
    eq_iff r.collection_name c,
    eq_iff r.collection_name collection,
    eq_iff r.id i,
    eq_iff r.id id,
    eq_iff c collection,
    eq_iff i id,
  )

find_first-removed :
    (collection id : String) (rows : List DocumentRow)
    → find_first (is_document collection id) (select (λ r. not (is_document collection id r)) rows)
      ≡ none
find_first-removed collection id [] = refl
find_first-removed collection id (r ∷ rows) = ground (arith, find_first-removed collection id rows)

-- What a read answers on rows whose look-up is known.
get_document-rows :
    (later : ℕ) (collection id : String) (rows after : List DocumentRow)
    → find_first (is_document collection id) after ≡ find_first (is_document collection id) rows
    → get_document_by_id commits later after collection id
      ≡ get_document_by_id commits later rows collection id
unfolding get_document_by_id find_document
get_document-rows later collection id rows after same = rw same

get_document-none :
    (later : ℕ) (collection id : String) (rows : List DocumentRow)
    → is_empty collection ≡ false
    → is_empty id ≡ false
    → find_first (is_document collection id) rows ≡ none
    → get_document_by_id commits later rows collection id
      ≡ err (not_found collection id "'" "No document with UUID: ")
unfolding get_document_by_id find_document
get_document-none later collection id rows a b missing = rw a (rw b (rw missing))

same_document :
    (c i collection id : String)
    → (str_eq c collection && str_eq i id) ≡ true
    → (c ≡ collection) × (i ≡ id)
same_document c i collection id h = ground (arith, eq_iff c collection, eq_iff i id)

-- After a deletion the document answers with 404, and every other document as before.
pub delete_document-get :
    (now later : ℕ) (collection id c i : String) (rows : List DocumentRow)
    → is_empty collection ≡ false
    → is_empty id ≡ false
    → get_document_by_id commits later (delete_document commits now rows collection id).1 c i ≡ (
        if str_eq c collection && str_eq i id
        then err (not_found collection id "'" "No document with UUID: ")
        else get_document_by_id commits later rows c i)
unfolding delete_document remove_document
delete_document-get now later collection id c i rows a b = rw a (
    rw b (elim (Bool-cases (str_eq c collection && str_eq i id)) [
      | inl same ↦
          let (p, q) = same_document c i collection id same in
          rw same (
            rw p (
              rw q (
                get_document-none later collection id _ a b
                  (find_first-removed collection id rows))))
      | inr other ↦ rw other (
          get_document-rows later c i rows _
            (find_first-removed_other c i collection id other rows))
    ]))

get_document-some :
    (later : ℕ) (collection id : String) (rows : List DocumentRow) (r : DocumentRow)
    → is_empty collection ≡ false
    → is_empty id ≡ false
    → find_first (is_document collection id) rows ≡ some r
    → get_document_by_id commits later rows collection id
      ≡ ok (
          respond
            (document_response (document later r))
            "Document retrieved successfully"
            200
            later)
unfolding get_document_by_id find_document
get_document-some later collection id rows r a b found = rw a (rw b (rw found))

-- What an update that is answered as done has done.
updated_rows :
    (j : Jsonb) (now : ℕ) (canonical json collection id : String) (rows after : List DocumentRow)
    (resp : ApiResponse DocumentResponse)
    → change_document j commits now rows collection id json ≡ (ok resp, after)
    → j.to_jsonb json ≡ some canonical
    → (is_empty collection ≡ false)
      × (is_empty id ≡ false)
      × (after ≡ update_where (is_document collection id) (with_data now canonical) rows)
      × (is_some (find_first (is_document collection id) rows) ≡ true)
unfolding change_document update_document
updated_rows j now canonical json collection id rows after resp h valid =
    ground (arith, find_first-updated now canonical collection id rows)

-- An update that is answered as done reaches the document of that id and collection, which is read
-- back with the new text, and every other document answers as before.
pub change_document-get :
    (j : Jsonb) (now later : ℕ) (canonical json collection id c i : String)
    (rows after : List DocumentRow) (resp : ApiResponse DocumentResponse)
    → change_document j commits now rows collection id json ≡ (ok resp, after)
    → j.to_jsonb json ≡ some canonical
    → get_document_by_id commits later after c i ≡ (
        if str_eq c collection && str_eq i id
        then ok (
            respond
              (record {
                id = id;
                collection = collection;
                data_text = canonical;
                created_at = later;
                updated_at = later;
              })
              "Document retrieved successfully"
              200
              later)
        else get_document_by_id commits later rows c i)
change_document-get j now later canonical json collection id c i rows after resp h valid =
    let (a, b, rest, known) =
      updated_rows j now canonical json collection id rows after resp h valid in
    elim (Bool-cases (str_eq c collection && str_eq i id)) [
      | inr other ↦ rw other (
          rw rest (
            get_document-rows later c i rows _
              (find_first-updated_other c i collection id other now canonical rows)))
      | inl same ↦ elim (Option-cases (find_first (is_document collection id) rows)) [
        | inl missing ↦ absurd (ground (arith, known, missing))
        | inr (r, found) ↦
            let (p, q) = same_document c i collection id same in
            let (names, ids) = find_first-names collection id rows r found in
            let read =
              find_first-updated now canonical collection id rows
              ∙ ap (over (with_data now canonical)) found in
            rw same (
              rw p (
                rw q (
                  rw rest (
                    get_document-some later collection id _ (with_data now canonical r) a b read
                    ∙ cc (names, ids)))))
      ]
    ]
