-- ===== src/Todos/UseCases/Titles.antt =====
-- The use cases keep the titles of the stored todos valid.
use cppbackend_api.Base.{
  size, ℕ, ◌≤◌, ◌≡◌, refl, Bool, true, false, ◌&&◌, inl, inr, Option, none, some, List, [], ◌∷◌,
  ◌++◌, String, arith, find_first, Option-cases,
}
use cppbackend_api.Todos.UseCases.Effects.{create_todo-valid, delete_todo-state}
use cppbackend_api.Domain.Result.{DomainError, ok, err, is_ok, Result-cases}
use cppbackend_api.Domain.Entities.{Todo}
use cppbackend_api.Validation.TodoFields.{
  CreateTodoRequest, UpdateTodoRequest, validate_create, validate_update, validate_title,
  is_all_space,
}
use cppbackend_api.Validation.TodoFields.Limits.{
  Fits, is_all_space-empty, validate_create-validate_title, validate_update_iff,
}
use cppbackend_api.Todos.{
  Todos, or_kept, is_todo, save, changed, change_first, update, erase_first, remove,
}
use cppbackend_api.Todos.UseCases.{
  in_memory, new_todo, keeps, create_todo, update_todo, delete_todo,
}

-- Every stored title passes the entity's rule.
abbrev pub titled : List Todo → Bool
titled [] = true
titled (x ∷ xs) = is_ok (validate_title x.title) && titled xs

titled-appended :
    (x : Todo) (xs : List Todo)
    → is_ok (validate_title x.title) ≡ true
    → titled xs ≡ true
    → titled (xs ++ x ∷ []) ≡ true
titled-appended x [] e h = ground arith
titled-appended x (y ∷ xs) e h = ground (arith, titled-appended x xs e)

titled-erased : (id : ℕ) (xs : List Todo) → titled xs ≡ true → titled (erase_first id xs) ≡ true
titled-erased id [] h = refl
titled-erased id (x ∷ xs) h = ground (arith, titled-erased id xs)

titled-changed :
    (id : ℕ) (f : Todo → Todo) (xs : List Todo)
    → ((x : Todo)
        → is_ok (validate_title x.title) ≡ true
        → is_ok (validate_title (f x).title) ≡ true)
    → titled xs ≡ true
    → titled (change_first id f xs) ≡ true
titled-changed id f [] keeps h = refl
titled-changed id f (x ∷ xs) keeps h = ground (arith, keeps x, titled-changed id f xs keeps)

or_kept-titled :
    (given : Option String) (kept : String)
    → Fits given (λ t. (is_all_space t ≡ false) × (size t ≤ 255))
    → is_ok (validate_title kept) ≡ true
    → is_ok (validate_title (or_kept given kept)) ≡ true
unfolding validate_title
or_kept-titled none kept fits h = h
or_kept-titled (some t) kept fits h = ground (arith, is_all_space-empty t)

save-titled :
    (now : ℕ) (t : Todos) (x : Todo)
    → is_ok (validate_title x.title) ≡ true
    → titled t.items ≡ true
    → titled (save now t x).1.items ≡ true
unfolding save
save-titled now t x e h = titled-appended _ t.items e h

update-titled :
    (now : ℕ) (t : Todos) (id : ℕ) (title description : Option String) (completed : Option Bool)
    → Fits title (λ t. (is_all_space t ≡ false) × (size t ≤ 255))
    → titled t.items ≡ true
    → titled (update now t id title description completed).1.items ≡ true
unfolding update
update-titled now t id title description completed fits h =
    elim (Option-cases (find_first (is_todo id) t.items)) [
      | inl e ↦ rw (e, update) h
      | inr (item, e) ↦
          rw (e, update)
            (titled-changed id (changed now title description completed) t.items
              (λ x. or_kept-titled title x.title fits) h)
    ]

remove-titled : (t : Todos) (id : ℕ) → titled t.items ≡ true → titled (remove t id).1.items ≡ true
unfolding remove
remove-titled t id h = elim (Option-cases (find_first (is_todo id) t.items)) [
  | inl e ↦ rw (e, remove) h
  | inr (item, e) ↦ rw (e, remove) (titled-erased id t.items h)
]

update_todo-state :
    (now : ℕ) (t : Todos) (id : ℕ) (req : UpdateTodoRequest)
    → validate_update req ≡ ok tt
    → (update_todo in_memory now t id req).1
      ≡ (update now t id req.title req.description req.completed).1
unfolding update_todo
update_todo-state now t id req valid =
    elim (Option-cases (update now t id req.title req.description req.completed).0) [
      | inl e ↦ rw (valid, e, update_todo)
      | inr (item, e) ↦ rw (valid, e, update_todo)
    ]

update_todo-invalid :
    (now : ℕ) (t : Todos) (id : ℕ) (req : UpdateTodoRequest) (failure : DomainError)
    → validate_update req ≡ err failure
    → (update_todo in_memory now t id req).1 ≡ t
unfolding update_todo
update_todo-invalid now t id req failure invalid = rw (invalid, update_todo)

create_todo-invalid :
    (now : ℕ) (t : Todos) (req : CreateTodoRequest) (failure : DomainError)
    → validate_create req ≡ err failure
    → (create_todo in_memory now t req).1 ≡ t
unfolding create_todo
create_todo-invalid now t req failure invalid = rw (invalid, create_todo)

-- If every stored title passes the entity's rule, so it does after any creation, any update and any
-- deletion, whether or not the request is valid or the id is stored.
pub use_cases-keep_titled :
    (now : ℕ) (t : Todos) (creation : CreateTodoRequest) (id : ℕ) (change : UpdateTodoRequest)
    → titled t.items ≡ true
    → (titled (create_todo in_memory now t creation).1.items ≡ true)
      × (titled (update_todo in_memory now t id change).1.items ≡ true)
      × (titled (delete_todo in_memory now t id).1.items ≡ true)
use_cases-keep_titled now t creation id change h = (
  elim (Result-cases (validate_create creation)) [
    | inl (_, valid) ↦
        let rule = validate_create-validate_title creation valid in
        rw (create_todo-valid now t creation valid)
          (save-titled now t (new_todo now creation) (rw rule) h)
    | inr (failure, invalid) ↦ rw (create_todo-invalid now t creation failure invalid) h
  ],
  elim (Result-cases (validate_update change)) [
    | inl (_, valid) ↦
        let (_, title, _) = (validate_update_iff change).0 valid in
        rw (update_todo-state now t id change valid)
          (update-titled now t id change.title change.description change.completed title h)
    | inr (failure, invalid) ↦ rw (update_todo-invalid now t id change failure invalid) h
  ],
  rw (delete_todo-state now t id) (remove-titled t id h),
)
