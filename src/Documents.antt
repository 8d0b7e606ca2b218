-- ===== src/Documents.antt =====
-- Infrastructure/src/Persistence/PostgresDocumentRepository.cpp: the table `documents` of
-- migrations/001. PostgreSQL's JSON is a parameter: `to_jsonb` is the canonical text of a jsonb
-- value, none where a text is no JSON, and `contains` is the operator @>.
pub mod UseCases
pub mod Effects
use cppbackend_api.Base.{
  ℕ, zero, suc, Bool, true, false, not, ◌&&◌, Option, none, some, List, [], ◌∷◌, ◌++◌, String,
  str_eq, bytes, if◌then◌else◌, is_empty, ltb, leb, all, any, select, update_where, find_first, map,
}
use cppbackend_api.Validation.{is_blank}
use cppbackend_api.Db.{Outcome, commits, refused, rolled_back, committed}

-- A row of the table.
pub record DocumentRow : Type 0 where
  pub id : String
  pub collection_name : String
  pub data_text : String
  pub created_at : ℕ
  pub updated_at : ℕ

-- DocumentEntity; its instants are those of its construction.
pub record DocumentEntity : Type 0 where
  pub id : String
  pub collection : String
  pub data_text : String
  pub created_at : ℕ
  pub updated_at : ℕ

pub record Jsonb : Type 0 where
  pub to_jsonb : String → Option String
  pub contains : String → String → Bool

abbrev pub document : ℕ → DocumentRow → DocumentEntity
document now r = record {
  id = r.id;
  collection = r.collection_name;
  data_text = r.data_text;
  created_at = now;
  updated_at = now;
}

-- The document before the statement has run.
abbrev pub unsaved : ℕ → String → String → String → DocumentEntity
unsaved now id collection json = record {
  id = id;
  collection = collection;
  data_text = json;
  created_at = now;
  updated_at = now;
}

abbrev pub inserted_row : ℕ → String → String → String → DocumentRow
inserted_row now id collection json = record {
  id = id;
  collection_name = collection;
  data_text = json;
  created_at = now;
  updated_at = now;
}

-- `drawn` is gen_random_uuid(). The id is taken over before the commit.
abbrev pub insert_json :
    Outcome
    → ℕ
    → String
    → List DocumentRow
    → String
    → String
    → Option String
    → DocumentEntity × List DocumentRow
insert_json o now drawn rows collection json none = (unsaved now "" collection json, rows)
insert_json o now drawn rows collection json (some canonical) = elim o [
  | commits ↦
      (unsaved now drawn collection json, rows ++ inserted_row now drawn collection canonical ∷ [])
  | refused ↦ (unsaved now "" collection json, rows)
  | rolled_back ↦ (unsaved now drawn collection json, rows)
]

unfoldable pub insert_document :
    Jsonb
    → Outcome
    → ℕ
    → String
    → List DocumentRow
    → String
    → String
    → DocumentEntity × List DocumentRow
insert_document j o now drawn rows collection json =
    insert_json o now drawn rows collection json (j.to_jsonb json)

-- WHERE collection_name = $1 AND id = $2.
abbrev pub is_document : String → String → DocumentRow → Bool
is_document collection id r = str_eq r.collection_name collection && str_eq r.id id

abbrev pub found_document : ℕ → Option DocumentRow → Option DocumentEntity
found_document now none = none
found_document now (some r) = some (document now r)

unfoldable pub find_document :
    Outcome → ℕ → List DocumentRow → String → String → Option DocumentEntity
find_document o now rows collection id =
    if committed o then found_document now (find_first (is_document collection id) rows) else none

-- A filter that is empty, "{}" or blank does not count.
abbrev pub has_filter : String → Bool
has_filter filter =
    not (is_empty filter) && not (str_eq filter "{}") && not (all is_blank (bytes filter))

-- ORDER BY created_at DESC.
abbrev pub insert_by_date : DocumentRow → List DocumentRow → List DocumentRow
insert_by_date r [] = r ∷ []
insert_by_date r (q ∷ rows) =
    if ltb r.created_at q.created_at then q ∷ insert_by_date r rows else r ∷ q ∷ rows

abbrev pub by_newest : List DocumentRow → List DocumentRow
by_newest [] = []
by_newest (r ∷ rows) = insert_by_date r (by_newest rows)

-- LIMIT n.
abbrev pub limit : ℕ → List DocumentRow → List DocumentRow
limit zero rows = []
limit (suc n) [] = []
limit (suc n) (r ∷ rows) = r ∷ limit n rows

-- The rows of a collection that hold a filter, or all of them.
abbrev pub in_collection : String → DocumentRow → Bool
in_collection collection r = str_eq r.collection_name collection

abbrev pub selected_rows : Jsonb → List DocumentRow → String → String → List DocumentRow
selected_rows j rows collection filter =
    if has_filter filter
    then elim (j.to_jsonb filter) [
      | none ↦ []
      | some wanted ↦ select (λ r. in_collection collection r && j.contains r.data_text wanted) rows
    ]
    else select (in_collection collection) rows

-- Where the transaction fails after the rows were read, they are returned all the same.
unfoldable pub query_by_filter :
    Jsonb → Outcome → ℕ → List DocumentRow → String → String → List DocumentEntity
query_by_filter j o now rows collection filter = elim o [
  | refused ↦ []
  | _ ↦ map (document now) (limit 100 (by_newest (selected_rows j rows collection filter)))
]

abbrev pub with_data : ℕ → String → DocumentRow → DocumentRow
with_data now json r = record r { data_text = json; updated_at = now }

abbrev pub update_json :
    ℕ
    → List DocumentRow
    → String
    → String
    → Option String
    → Option DocumentEntity × List DocumentRow
update_json now rows collection id none = (none, rows)
update_json now rows collection id (some canonical) =
    let after = update_where (is_document collection id) (with_data now canonical) rows in
    (found_document now (find_first (is_document collection id) after), after)

unfoldable pub update_document :
    Jsonb
    → Outcome
    → ℕ
    → List DocumentRow
    → String
    → String
    → String
    → Option DocumentEntity × List DocumentRow
update_document j o now rows collection id json =
    if committed o then update_json now rows collection id (j.to_jsonb json) else (none, rows)

unfoldable pub remove_document :
    Outcome → List DocumentRow → String → String → Bool × List DocumentRow
remove_document o rows collection id =
    if committed o
    then (
      any (is_document collection id) rows,
      select (λ r. not (is_document collection id r)) rows,
    )
    else (false, rows)
