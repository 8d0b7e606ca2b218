-- ===== src/Todos/Postgres.antt =====
-- Infrastructure/src/Persistence/PostgresTodoRepository.cpp: the table `todos` of migrations/001 and
-- its sequence of ids. A todo that is read has the instant of the read as its two instants.
pub mod Agreement
pub mod Order
pub mod Runs
pub mod Unchecked
use cppbackend_api.Base.{
  ℕ, suc, ◌+◌, Bool, true, false, not, Option, none, some, List, [], ◌∷◌, ◌++◌, String, ◌==◌,
  if◌then◌else◌, leb, any, select, update_where, find_first, map,
}
use cppbackend_api.Domain.Entities.{Todo}
use cppbackend_api.Db.{Outcome, commits, refused, rolled_back, committed}
use cppbackend_api.Todos.{is_todo, or_kept}
use cppbackend_api.Todos.UseCases.{TodoRepository}

pub record TodoTable : Type 0 where
  pub rows : List Todo
  pub next_id : ℕ

-- A row as it is read.
abbrev pub read_at : ℕ → Todo → Todo
read_at now r = record r { created_at = now; updated_at = now }

-- ORDER BY id ASC.
abbrev pub insert_by_id : Todo → List Todo → List Todo
insert_by_id r [] = r ∷ []
insert_by_id r (q ∷ rows) = if leb r.id q.id then r ∷ q ∷ rows else q ∷ insert_by_id r rows

abbrev pub sorted_by_id : List Todo → List Todo
sorted_by_id [] = []
sorted_by_id (r ∷ rows) = insert_by_id r (sorted_by_id rows)

-- What was read before the commit failed is returned.
unfoldable pub find_all_rows : Outcome → ℕ → TodoTable → List Todo
find_all_rows o now t = elim o [ refused ↦ [] | _ ↦ map (read_at now) (sorted_by_id t.rows) ]

abbrev pub found_row : ℕ → Option Todo → Option Todo
found_row now none = none
found_row now (some r) = some (read_at now r)

unfoldable pub find_row : Outcome → ℕ → TodoTable → ℕ → Option Todo
find_row o now t id = if committed o then found_row now (find_first (is_todo id) t.rows) else none

-- The id is taken over before the commit; the todo keeps its instants, and the row has its own.
unfoldable pub save_row : Outcome → ℕ → TodoTable → Todo → Todo × TodoTable
save_row o now t todo = elim o [
  | commits ↦ (
    record todo { id = t.next_id },
    record {
      rows = t.rows ++ record todo { id = t.next_id; created_at = now; updated_at = now } ∷ [];
      next_id = suc t.next_id;
    },
  )
  | refused ↦ (todo, t)
  | rolled_back ↦ (record todo { id = t.next_id }, record t { next_id = suc t.next_id })
]

abbrev pub changed_row : ℕ → Option String → Option String → Option Bool → Todo → Todo
changed_row now title description completed r = record r {
  title = or_kept title r.title;
  description = or_kept description r.description;
  completed = or_kept completed r.completed;
  updated_at = now;
}

unfoldable pub update_row :
    Outcome
    → ℕ
    → TodoTable
    → ℕ
    → Option String
    → Option String
    → Option Bool
    → Option Todo × TodoTable
update_row o now t id title description completed =
    if committed o
    then elim (find_first (is_todo id) t.rows) [
      | none ↦ (none, t)
      | some r ↦ (
        some (read_at now (record (changed_row now title description completed r) { id = id })),
        record t {
          rows = update_where (is_todo id) (changed_row now title description completed) t.rows;
        },
      )
    ]
    else (none, t)

unfoldable pub remove_row : Outcome → TodoTable → ℕ → Bool × TodoTable
remove_row o t id =
    if committed o
    then (any (is_todo id) t.rows, record t { rows = select (λ r. not (is_todo id r)) t.rows })
    else (false, t)

-- The repository as one request meets it: at its instant, each call with the given outcome.
abbrev pub in_postgres : Outcome → ℕ → TodoRepository TodoTable
in_postgres o now = record {
  all = find_all_rows o now;
  by_id = find_row o now;
  insert = save_row o;
  change = update_row o;
  delete = remove_row o;
}
