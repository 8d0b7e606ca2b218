-- ===== src/Todos/UseCases.antt =====
-- Application/src/UseCases/TodoUseCases.cpp over ITodoRepository. An instant stands for its ISO
-- text.
pub mod Effects
pub mod Titles
use cppbackend_api.Base.{
  ℕ, Bool, true, false, Option, none, some, List, map, String, append, to_string, if◌then◌else◌,
  select, length,
}
use cppbackend_api.Domain.Result.{Result, ok, err, fail_with, ApiResponse, respond, respond_void}
use cppbackend_api.Domain.Entities.{Todo}
use cppbackend_api.Validation.TodoFields.{
  CreateTodoRequest, UpdateTodoRequest, validate_create, validate_update,
}
use cppbackend_api.Todos.{Todos, find_all, find_todo_by_id, save, update, remove}

-- ITodoRepository over a state.
pub record TodoRepository (S : Type 0) : Type 0 where
  pub all : S → List Todo
  pub by_id : S → ℕ → Option Todo
  pub insert : ℕ → S → Todo → Todo × S
  pub change : ℕ → S → ℕ → Option String → Option String → Option Bool → Option Todo × S
  pub delete : S → ℕ → Bool × S

abbrev pub in_memory : TodoRepository Todos
in_memory = record {
  all = find_all;
  by_id = find_todo_by_id;
  insert = save;
  change = update;
  delete = remove;
}

pub record TodoResponse : Type 0 where
  pub id : ℕ
  pub title : String
  pub description : String
  pub completed : Bool
  pub created_at : ℕ
  pub updated_at : ℕ

-- TodoResponse::fromDomain.
abbrev pub todo_response : Todo → TodoResponse
todo_response t = record {
  id = t.id;
  title = t.title;
  description = t.description;
  completed = t.completed;
  created_at = t.created_at;
  updated_at = t.updated_at;
}

abbrev pub new_todo : ℕ → CreateTodoRequest → Todo
new_todo now req = record {
  id = 0;
  title = req.title;
  description = req.description;
  completed = false;
  created_at = now;
  updated_at = now;
}

abbrev pub bool_text : Bool → String
bool_text true = "true"
bool_text false = "false"

-- `!filter.has_value() || item.completed == *filter`.
abbrev pub keeps : Option Bool → Todo → Bool
keeps none item = true
keeps (some true) item = item.completed
keeps (some false) item = if item.completed then false else true

abbrev listed_message : Option Bool → ℕ → String
listed_message none count = append "Retrieved all " (append (to_string count) " todos")
listed_message (some b) count =
    append "Retrieved " (append (to_string count) (append " todos with completed = " (bool_text b)))

module _ {S : Type 0} (repo : TodoRepository S) where
  unfoldable pub create_todo : ℕ → S → CreateTodoRequest → Result (ApiResponse TodoResponse) × S
  create_todo now s req = elim (validate_create req) [
    | err e ↦ (err e, s)
    | ok _ ↦
        let saved = repo.insert now s (new_todo now req) in
        (ok (respond (todo_response saved.0) "Todo created successfully" 201 now), saved.1)
  ]

  unfoldable pub get_todo_by_id : ℕ → S → ℕ → Result (ApiResponse TodoResponse)
  get_todo_by_id now s id = elim (repo.by_id s id) [
    | none ↦ err (
        fail_with 404 (append "Todo with id " (append (to_string id) " was not found"))
          (append "No Todo entity matches the requested id: " (to_string id)))
    | some found ↦ ok (respond (todo_response found) "Todo retrieved successfully" 200 now)
  ]

  unfoldable pub list_todos : ℕ → S → Option Bool → ApiResponse (List TodoResponse)
  list_todos now s filter =
      let list = map todo_response (select (keeps filter) (repo.all s)) in
      respond list (listed_message filter (length list)) 200 now

  unfoldable pub update_todo : ℕ → S → ℕ → UpdateTodoRequest → Result (ApiResponse TodoResponse) × S
  update_todo now s id req = elim (validate_update req) [
    | err e ↦ (err e, s)
    | ok _ ↦
        let updated = repo.change now s id req.title req.description req.completed in
        elim updated.0 [
          | none ↦ (
            err (
                fail_with 404
                  (append "Todo with id " (append (to_string id) " was not found for update"))
                  (append "Cannot update non-existent Todo with id: " (to_string id))),
            updated.1,
          )
          | some item ↦
              (ok (respond (todo_response item) "Todo updated successfully" 200 now), updated.1)
        ]
  ]

  unfoldable pub delete_todo : ℕ → S → ℕ → Result (ApiResponse (Unit {0})) × S
  delete_todo now s id =
      let removed = repo.delete s id in
      if removed.0
      then (
        ok (
            respond_void (append "Todo with id " (append (to_string id) " deleted successfully"))
              200 now),
        removed.1,
      )
      else (
        err (
            fail_with 404
              (append "Todo with id " (append (to_string id) " was not found for deletion"))
              (append "Cannot delete non-existent Todo with id: " (to_string id))),
        removed.1,
      )
