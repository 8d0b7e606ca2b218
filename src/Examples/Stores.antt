-- ===== src/Examples/Stores.antt =====
-- The cache and the documents on small tables.
use cppbackend_api.Base.{
  ◌+◌, ◌≡◌, refl, ◌||◌, none, some, List, [], ◌∷◌, str_eq, if◌then◌else◌, ltb, negsuc,
}
use cppbackend_api.Domain.Result.{ok, respond, ApiResponse}
use cppbackend_api.Db.{commits}
use cppbackend_api.Examples.{db}
use cppbackend_api.Caching.{SetCacheRequest, set_entry, get_entry}
use cppbackend_api.Caching.Effects.{found_answer, missing_answer, set_entry-get_entry}
use cppbackend_api.Documents.{DocumentRow, Jsonb, update_document}
use cppbackend_api.Documents.UseCases.{
  CreateDocumentRequest, DocumentResponse, get_document_by_id, change_document,
}
use cppbackend_api.Documents.Effects.{change_document-get}

abbrev entry : SetCacheRequest
entry = record { key = "k"; value = "v"; ttl_seconds = negsuc 4 }

-- After an hour the entry is gone.
set_entry-get_entry_example :
    get_entry commits 4600 (set_entry (λ n. commits) 1000 db entry).1 "k"
    ≡ (if ltb 4600 (1000 + 3600) then found_answer "k" "v" 3600 4600 else missing_answer "k")
set_entry-get_entry_example = set_entry-get_entry 1000 4600 db entry refl

-- Only "{}" and one other text are JSON.
abbrev json : Jsonb
json = record {
  to_jsonb = λ s. if str_eq s "{}" || str_eq s "{\"a\": 1}" then some s else none;
  contains = λ whole part. str_eq part "{}" || str_eq whole part;
}

abbrev row : DocumentRow
row = record { id = "d1"; collection_name = "c"; data_text = "{}"; created_at = 1; updated_at = 1 }

abbrev creation : CreateDocumentRequest
creation = record { collection = "c"; data_text = "{\"a\": 1}" }

abbrev invalid : CreateDocumentRequest
invalid = record { collection = "c"; data_text = "{" }

abbrev updated : ApiResponse DocumentResponse
updated =
    respond
      (record {
        id = "d1";
        collection = "c";
        data_text = "{\"a\": 1}";
        created_at = 8;
        updated_at = 8;
      })
      "Document updated successfully" 200 8

abbrev after : List DocumentRow
after = record row { data_text = "{\"a\": 1}"; updated_at = 8 } ∷ []

update_done : change_document json commits 8 (row ∷ []) "c" "d1" "{\"a\": 1}" ≡ (ok updated, after)
unfolding change_document update_document
update_done = refl

change_document-get_example :
    get_document_by_id commits 9 after "c" "d2" ≡ get_document_by_id commits 9 (row ∷ []) "c" "d2"
change_document-get_example =
    change_document-get json 8 9 "{\"a\": 1}" "{\"a\": 1}" "c" "d1" "c" "d2" (row ∷ []) after
      updated update_done refl
