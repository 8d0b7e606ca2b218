-- ===== src/Todos/UseCases/Effects.antt =====
-- The todo use cases over the in-memory repository.
use cppbackend_api.Base.{
  ℕ, ◌≡◌, refl, ap, ◌∙◌, true, false, inl, inr, none, some, is_some, ◌==◌, ==_iff, Bool-cases,
}
use cppbackend_api.Domain.Result.{ok, respond, is_ok}
use cppbackend_api.Domain.Entities.{Todo}
use cppbackend_api.Validation.TodoFields.{CreateTodoRequest, validate_create}
use cppbackend_api.Todos.{Todos, find_todo_by_id, save, remove}
use cppbackend_api.Todos.Invariant.{WellFormed}
use cppbackend_api.Todos.Lookup.{save_lem, remove_lem}
use cppbackend_api.Todos.UseCases.{
  in_memory, TodoResponse, todo_response, new_todo, create_todo, get_todo_by_id, delete_todo,
}

pub create_todo-valid :
    (now : ℕ) (t : Todos) (req : CreateTodoRequest)
    → validate_create req ≡ ok tt
    → create_todo in_memory now t req ≡ (
      ok (
          respond
            (todo_response (save now t (new_todo now req)).0)
            "Todo created successfully"
            201
            now),
      (save now t (new_todo now req)).1,
    )
unfolding create_todo
create_todo-valid now t req valid = rw (valid, create_todo)

get_todo_by_id-found :
    (now : ℕ) (t : Todos) (id : ℕ) (item : Todo)
    → find_todo_by_id t id ≡ some item
    → get_todo_by_id in_memory now t id
      ≡ ok (respond (todo_response item) "Todo retrieved successfully" 200 now)
unfolding get_todo_by_id
get_todo_by_id-found now t id item found = rw (found, get_todo_by_id)

==-refl : (n : ℕ) → (n == n) ≡ true
==-refl n = (==_iff n n).1 refl

-- A valid creation in a well-formed repository succeeds, and the todo can be read at any later
-- instant under the id that was next, with the request's title and description and not completed.
pub create_then_get :
    (now later n : ℕ) (t : Todos) (req : CreateTodoRequest)
    → WellFormed n t
    → validate_create req ≡ ok tt
    → let after = create_todo in_memory now t req in
      let todo : TodoResponse = record {
        id = t.next_id;
        title = req.title;
        description = req.description;
        completed = false;
        created_at = now;
        updated_at = now;
      } in
      (after.0 ≡ ok (respond todo "Todo created successfully" 201 now))
      × (get_todo_by_id in_memory later after.1 t.next_id
          ≡ ok (respond todo "Todo retrieved successfully" 200 later))
create_then_get now later n t req w valid =
    let (stored, lookup) = save_lem now n t (new_todo now req) w in
    let same = ap (λ (x : Todo). todo_response x) stored in
    let found : find_todo_by_id (save now t (new_todo now req)).1 t.next_id
        ≡ some (save now t (new_todo now req)).0 =
      lookup t.next_id ∙ rw (==-refl t.next_id) in
    rw (create_todo-valid now t req valid) (
      ap (λ (x : TodoResponse). ok (respond x "Todo created successfully" 201 now)) same,
      get_todo_by_id-found later _ t.next_id _ found
          ∙ ap (λ (x : TodoResponse). ok (respond x "Todo retrieved successfully" 200 later)) same,
    )

get_todo_by_id-missing :
    (now : ℕ) (t : Todos) (id : ℕ)
    → find_todo_by_id t id ≡ none
    → is_ok (get_todo_by_id in_memory now t id) ≡ false
unfolding get_todo_by_id
get_todo_by_id-missing now t id missing = rw (missing, get_todo_by_id, is_ok)

pub delete_todo-state :
    (now : ℕ) (t : Todos) (id : ℕ) → (delete_todo in_memory now t id).1 ≡ (remove t id).1
unfolding delete_todo
delete_todo-state now t id = elim (Bool-cases (remove t id).0) [ inl e ↦ rw e | inr e ↦ rw e ]

delete_todo-is_ok :
    (now : ℕ) (t : Todos) (id : ℕ) → is_ok (delete_todo in_memory now t id).0 ≡ (remove t id).0
unfolding delete_todo
delete_todo-is_ok now t id = elim (Bool-cases (remove t id).0) [ inl e ↦ rw e | inr e ↦ rw e ]

removed-missing : (t : Todos) (id : ℕ) → find_todo_by_id t id ≡ none → (remove t id).0 ≡ false
unfolding remove find_todo_by_id
removed-missing t id missing = rw (missing, remove)

-- A deletion succeeds exactly where the id is stored, and in a well-formed repository neither a
-- second deletion nor a look-up of the id succeeds after it.
pub delete_then_get :
    (now later n : ℕ) (t : Todos) (id : ℕ)
    → WellFormed n t
    → let after = delete_todo in_memory now t id in
      (is_ok after.0 ≡ is_some (find_todo_by_id t id))
      × (is_ok (get_todo_by_id in_memory later after.1 id) ≡ false)
      × (is_ok (delete_todo in_memory later after.1 id).0 ≡ false)
delete_then_get now later n t id w =
    let (answer, lookup) = remove_lem n t id w in
    let gone : find_todo_by_id (remove t id).1 id ≡ none = lookup id ∙ rw (==-refl id) in
    rw (delete_todo-state now t id) (
      delete_todo-is_ok now t id ∙ answer,
      get_todo_by_id-missing later (remove t id).1 id gone,
      delete_todo-is_ok later (remove t id).1 id ∙ removed-missing (remove t id).1 id gone,
    )
