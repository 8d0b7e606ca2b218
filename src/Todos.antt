-- ===== src/Todos.antt =====
-- Infrastructure/src/Persistence/InMemoryTodoRepository.cpp: the todos in order of creation and the
-- next id, an unsigned number of 64 bits. Each operation holds the lock throughout, so a run is a
-- sequence of operations.
pub mod Invariant
pub mod Lookup
pub mod UseCases
pub mod Postgres
use cppbackend_api.Base.{
  ℕ, ◌+◌, ◌%◌, ◌^◌, Bool, true, false, Option, none, some, List, [], ◌∷◌, ◌++◌, String, ◌==◌,
  if◌then◌else◌, find_first,
}
use cppbackend_api.Domain.Entities.{Todo}

pub record Todos : Type 0 where
  pub items : List Todo
  pub next_id : ℕ

-- m_nextId++, the value after it.
abbrev pub bumped : ℕ → ℕ
bumped id = (id + 1) % 2 ^ 64

-- The constructor's two todos.
unfoldable pub initial : ℕ → Todos
initial now = record {
  items =
      record {
        id = 1;
        title = "Explore Crow C++ Framework";
        description = "Investigate Crow capabilities and routing with C++20";
        completed = true;
        created_at = now;
        updated_at = now;
      }
      ∷ record {
        id = 2;
        title = "Multi-Module Clean Architecture";
        description =
            "Organize solution into Domain, Application, Infrastructure, Presentation, Core projects";
        completed = false;
        created_at = now;
        updated_at = now;
      }
      ∷ [];
  next_id = 3;
}

abbrev pub find_all : Todos → List Todo
find_all t = t.items

abbrev pub is_todo : ℕ → Todo → Bool
is_todo id item = item.id == id

unfoldable pub find_todo_by_id : Todos → ℕ → Option Todo
find_todo_by_id t id = find_first (is_todo id) t.items

unfoldable pub save : ℕ → Todos → Todo → Todo × Todos
save now t todo =
    let stored : Todo = record todo { id = t.next_id; created_at = now; updated_at = now } in
    (stored, record { items = t.items ++ stored ∷ []; next_id = bumped t.next_id })

abbrev pub or_kept {ℓ} : {A : Type ℓ} → Option A → A → A
or_kept none kept = kept
or_kept (some given) kept = given

abbrev pub changed : ℕ → Option String → Option String → Option Bool → Todo → Todo
changed now title description completed item = record item {
  title = or_kept title item.title;
  description = or_kept description item.description;
  completed = or_kept completed item.completed;
  updated_at = now;
}

-- The first element that the iterator finds is changed in place.
abbrev pub change_first : ℕ → (Todo → Todo) → List Todo → List Todo
change_first id f [] = []
change_first id f (x ∷ xs) = if is_todo id x then f x ∷ xs else x ∷ change_first id f xs

unfoldable pub update :
    ℕ → Todos → ℕ → Option String → Option String → Option Bool → Option Todo × Todos
update now t id title description completed = elim (find_first (is_todo id) t.items) [
  | none ↦ (none, t)
  | some item ↦ (
    some (changed now title description completed item),
    record t { items = change_first id (changed now title description completed) t.items },
  )
]

-- erase(it).
abbrev pub erase_first : ℕ → List Todo → List Todo
erase_first id [] = []
erase_first id (x ∷ xs) = if is_todo id x then xs else x ∷ erase_first id xs

unfoldable pub remove : Todos → ℕ → Bool × Todos
remove t id = elim (find_first (is_todo id) t.items) [
  | none ↦ (false, t)
  | some _ ↦ (true, record t { items = erase_first id t.items })
]
