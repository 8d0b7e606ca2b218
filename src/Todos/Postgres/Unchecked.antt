-- ===== src/Todos/Postgres/Unchecked.antt =====
-- The todo use cases over PostgreSQL where a write fails.
use cppbackend_api.Base.{◌≡◌, refl, ℕ, true, false}
use cppbackend_api.Domain.Result.{ok, is_ok}
use cppbackend_api.Db.{Outcome, commits, refused, rolled_back, committed}
use cppbackend_api.Validation.TodoFields.{CreateTodoRequest, validate_create}
use cppbackend_api.Todos.UseCases.{create_todo, new_todo}
use cppbackend_api.Todos.Postgres.{TodoTable, save_row, in_postgres}

save_row-lost :
    (o : Outcome) (now : ℕ) (t : TodoTable) (req : CreateTodoRequest)
    → committed o ≡ false
    → (save_row o now t (new_todo now req)).1.rows ≡ t.rows
unfolding save_row
save_row-lost commits now t req h = cc
save_row-lost refused now t req h = refl
save_row-lost rolled_back now t req h = refl

-- A valid creation is answered as created also where its statement does not commit and nothing is
-- stored.
pub create_todo-unchecked :
    (o : Outcome) (now : ℕ) (t : TodoTable) (req : CreateTodoRequest)
    → committed o ≡ false
    → validate_create req ≡ ok tt
    → let created = create_todo (in_postgres o now) now t req in
      (is_ok created.0 ≡ true) × (created.1.rows ≡ t.rows)
unfolding create_todo
create_todo-unchecked o now t req h valid =
    rw (valid, create_todo) (refl, save_row-lost o now t req h)
