-- ===== src/Examples/TodoRuns.antt =====
-- Runs of the todo repository and its use cases.
use mathlib.Core.Option
use cppbackend_api.Base.{ℕ, ◌≡◌, refl, true, false, none, some, is_some, arith, List, [], ◌∷◌}
use cppbackend_api.Domain.Result.{ok}
use cppbackend_api.Domain.Entities.{Todo}
use cppbackend_api.Validation.TodoFields.{
  CreateTodoRequest, UpdateTodoRequest, validate_create, validate_title, is_all_space,
}
use cppbackend_api.Todos.{Todos, initial, save, update, remove}
use cppbackend_api.Todos.Invariant.{Run, saves, removes, starts, runs, WellFormed, Run-WellFormed}
use cppbackend_api.Todos.Lookup.{edited, put, abstract, refines_map}
use cppbackend_api.Todos.Postgres.{TodoTable}
use cppbackend_api.Todos.Postgres.Runs.{
  Operation, Agree, SameAnswers, in_memory_run, in_postgres_run, shifted, repositories_agree,
}
use cppbackend_api.Todos.UseCases.{in_memory, create_todo, update_todo, delete_todo}
use cppbackend_api.Todos.UseCases.Titles.{titled, use_cases-keep_titled}

abbrev start : Todos
start = initial 100

abbrev milk : Todo
milk = record {
  id = 0;
  title = "buy milk";
  description = "";
  completed = false;
  created_at = 0;
  updated_at = 0;
}

abbrev t : Todos
t = (remove (save 200 start milk).1 1).1

run : Run 2 t
run =
    runs 1 (save 200 start milk).1 t
      (runs 0 start (save 200 start milk).1 (starts 100) (saves 200 start milk))
      (removes (save 200 start milk).1 1)

well_formed : WellFormed 2 t
well_formed = Run-WellFormed 2 t (omega arith) run

refines_map_example :
    let saved = save 300 t milk in
    let updated = update 300 t 2 none none (some true) in
    let removed = remove t 2 in
    (abstract t t.next_id ≡ none)
    × (saved.0 ≡ record milk { id = t.next_id; created_at = 300; updated_at = 300 })
    × ((key : ℕ) → abstract saved.1 key ≡ put t.next_id (some saved.0) (abstract t) key)
    × (updated.0 ≡ Option.map (edited 300 none none (some true)) (abstract t 2))
    × ((key : ℕ) → abstract updated.1 key ≡ put 2 updated.0 (abstract t) key)
    × (removed.0 ≡ is_some (abstract t 2))
    × ((key : ℕ) → abstract removed.1 key ≡ put 2 none (abstract t) key)
refines_map_example = refines_map 300 2 t milk 2 none none (some true) well_formed

abbrev creation : CreateTodoRequest
creation = record { title = "buy milk"; description = "two litres" }

creation_valid : validate_create creation ≡ ok tt
unfolding validate_create is_all_space
creation_valid = refl

abbrev change : UpdateTodoRequest
change = record { title = some "buy oat milk"; description = none; completed = some true }

t-titled : titled t.items ≡ true
unfolding initial save remove validate_title
t-titled = refl

use_cases-keep_titled_example :
    (titled (create_todo in_memory 300 t creation).1.items ≡ true)
    × (titled (update_todo in_memory 300 t 2 change).1.items ≡ true)
    × (titled (delete_todo in_memory 300 t 2).1.items ≡ true)
use_cases-keep_titled_example = use_cases-keep_titled 300 t creation 2 change t-titled

-- The constructor's todos, as rows of PostgreSQL.
abbrev table : TodoTable
table = record { rows = start.items; next_id = 3 }

abbrev operations : List (ℕ × Operation)
operations =
    (1, Operation.saves milk)
    ∷ (2, Operation.updates 3 none (some "two litres") (some true))
    ∷ (3, Operation.removes 1)
    ∷ (4, Operation.finds 3)
    ∷ (5, Operation.lists)
    ∷ []

same_start : Agree start table
unfolding initial
same_start = record {
  alike = ((refl, refl, refl, refl), ((refl, refl, refl, refl), tt));
  next = refl;
  in_order = refl;
}

repositories_agree_example :
    SameAnswers (in_memory_run operations start) (in_postgres_run (shifted 50 operations) table)
repositories_agree_example =
    repositories_agree 0 operations 50 start table (omega arith)
      (Run-WellFormed 0 start (omega arith) (starts 100)) same_start
