-- ===== src/Documents/UseCases.antt =====
-- Application/src/UseCases/DocumentUseCases.cpp. An instant stands for its ISO text.
use cppbackend_api.Base.{
  ℕ, Bool, true, false, ◌||◌, Option, none, some, List, map, String, append, to_string,
  if◌then◌else◌, is_empty, length,
}
use cppbackend_api.Domain.Result.{
  Result, ok, err, DomainError, fail_with, ApiResponse, respond, respond_void,
}
use cppbackend_api.Db.{Outcome}
use cppbackend_api.Documents.{
  DocumentRow, DocumentEntity, Jsonb, insert_document, find_document, query_by_filter,
  update_document, remove_document,
}

pub record CreateDocumentRequest : Type 0 where
  pub collection : String
  pub data_text : String

pub record QueryDocumentRequest : Type 0 where
  pub collection : String
  pub filter_json : String

pub record DocumentResponse : Type 0 where
  pub id : String
  pub collection : String
  pub data_text : String
  pub created_at : ℕ
  pub updated_at : ℕ

-- DocumentResponse::fromDomain.
abbrev pub document_response : DocumentEntity → DocumentResponse
document_response d = record {
  id = d.id;
  collection = d.collection;
  data_text = d.data_text;
  created_at = d.created_at;
  updated_at = d.updated_at;
}

abbrev not_created : String → DomainError
not_created detail = fail_with 400 "Validation failed for document creation" detail

abbrev pub stored_message : String → String → String
stored_message collection id =
    append "Document stored in collection '" (append collection (append "' with UUID " id))

unfoldable pub create_document :
    Jsonb
    → Outcome
    → ℕ
    → String
    → List DocumentRow
    → CreateDocumentRequest
    → Result (ApiResponse DocumentResponse) × List DocumentRow
create_document j o now drawn rows req =
    if is_empty req.collection
    then (err (not_created "Field 'collection' cannot be empty."), rows)
    else if is_empty req.data_text
    then (err (not_created "Field 'data' (JSON payload) cannot be empty."), rows)
    else let (inserted, after) = insert_document j o now drawn rows req.collection req.data_text in
      (
        ok (
            respond (document_response inserted) (stored_message req.collection inserted.id) 201
              now),
        after,
      )

-- "Document '…' not found in collection '…'" and what follows.
abbrev pub not_found : String → String → String → String → DomainError
not_found collection id suffix detail =
    fail_with 404
      (append "Document '"
        (append id (append "' not found in collection '" (append collection suffix))))
      (append detail id)

abbrev pub both_required : DomainError
both_required = fail_with 400 "Validation failed" "Both 'collection' and 'id' must be provided."

abbrev pub shown :
    ℕ → String → DomainError → Option DocumentEntity → Result (ApiResponse DocumentResponse)
shown now message missing none = err missing
shown now message missing (some d) = ok (respond (document_response d) message 200 now)

unfoldable pub get_document_by_id :
    Outcome → ℕ → List DocumentRow → String → String → Result (ApiResponse DocumentResponse)
get_document_by_id o now rows collection id =
    if is_empty collection || is_empty id
    then err both_required
    else shown now "Document retrieved successfully"
        (not_found collection id "'" "No document with UUID: ")
        (find_document o now rows collection id)

abbrev pub or_any : String → String
or_any filter = if is_empty filter then "{}" else filter

-- The message counts `responses` in the call that moves them away. Which of the two arguments is
-- made first is unspecified: where the move is first, the count is that of the emptied vector.
abbrev pub found_message : Bool → ℕ → String → String
found_message moved_first count collection = append "Found " (
    append (to_string (if moved_first then 0 else count))
      (append " documents matching query in '" (append collection "'")))

unfoldable pub query_documents :
    Jsonb
    → Outcome
    → ℕ
    → Bool
    → List DocumentRow
    → QueryDocumentRequest
    → Result (ApiResponse (List DocumentResponse))
query_documents j o now moved_first rows req =
    if is_empty req.collection
    then err (fail_with 400 "Validation failed" "Field 'collection' is required.")
    else let docs = query_by_filter j o now rows req.collection (or_any req.filter_json) in
      ok (
        respond (map document_response docs)
          (found_message moved_first (length docs) req.collection) 200 now)

unfoldable pub change_document :
    Jsonb
    → Outcome
    → ℕ
    → List DocumentRow
    → String
    → String
    → String
    → Result (ApiResponse DocumentResponse) × List DocumentRow
change_document j o now rows collection id json =
    if is_empty collection || is_empty id || is_empty json
    then (
      err (
          fail_with 400 "Validation failed"
            "Collection, ID, and updated data payload must be provided."),
      rows,
    )
    else let updated = update_document j o now rows collection id json in
      (
        shown now "Document updated successfully"
            (not_found collection id "' for update" "Cannot update document with UUID: ") updated.0,
        updated.1,
      )

abbrev pub removed_reply : ℕ → String → String → Bool → Result (ApiResponse (Unit {0}))
removed_reply now collection id true = ok (
    respond_void
      (append "Document '"
        (append id (append "' removed from collection '" (append collection "'"))))
      200 now)
removed_reply now collection id false =
    err (not_found collection id "'" "Cannot delete document with UUID: ")

unfoldable pub delete_document :
    Outcome
    → ℕ
    → List DocumentRow
    → String
    → String
    → Result (ApiResponse (Unit {0})) × List DocumentRow
delete_document o now rows collection id =
    if is_empty collection || is_empty id
    then (err both_required, rows)
    else let removed = remove_document o rows collection id in
      (removed_reply now collection id removed.0, removed.1)
