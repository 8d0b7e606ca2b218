-- ===== src/Todos/Lookup.antt =====
-- The repository as a map from ids to todos: what each operation does to it.
use cppbackend_api.Base.{
  ℕ, ◌≡◌, refl, ap, Bool, true, false, inl, inr, Option, none, some, is_some, List, [], ◌∷◌, ◌++◌,
  String, if◌then◌else◌, arith, find_first, any, ◌==◌, ==_iff, Bool-cases, Option-cases,
}
use mathlib.Core.Option
use cppbackend_api.Domain.Entities.{Todo}
use cppbackend_api.Todos.{
  Todos, is_todo, find_todo_by_id, save, changed, change_first, or_kept, update, erase_first,
  remove,
}
use cppbackend_api.Todos.Invariant.{WellFormed, distinct_below, any-below}

-- A map, and a map after a change at one id.
abbrev pub TodoMap : Type 0
TodoMap = ℕ → Option Todo

abbrev pub put : ℕ → Option Todo → TodoMap → TodoMap
put id value m key = if key == id then value else m key

abbrev pub abstract : Todos → TodoMap
abstract t = find_todo_by_id t

find_first-saved :
    (key : ℕ) (x : Todo) (xs : List Todo)
    → any (is_todo x.id) xs ≡ false
    → find_first (is_todo key) (xs ++ x ∷ [])
      ≡ (if key == x.id then some x else find_first (is_todo key) xs)
find_first-saved key x [] new = ground arith
find_first-saved key x (y ∷ xs) new = ground (arith, find_first-saved key x xs)

find_first-changed :
    (key id : ℕ) (f : Todo → Todo) (xs : List Todo) (item : Todo)
    → ((x : Todo) → (f x).id ≡ x.id)
    → find_first (is_todo id) xs ≡ some item
    → find_first (is_todo key) (change_first id f xs)
      ≡ (if key == id then some (f item) else find_first (is_todo key) xs)
find_first-changed key id f [] item keeps h = absurd (ground arith)
find_first-changed key id f (x ∷ xs) item keeps h =
    ground (arith, keeps x, find_first-changed key id f xs item keeps)

find_first-none :
    (key : ℕ) (xs : List Todo) → any (is_todo key) xs ≡ false → find_first (is_todo key) xs ≡ none
find_first-none key [] h = refl
find_first-none key (x ∷ xs) h = ground (arith, find_first-none key xs)

find_first-erased :
    (b key id : ℕ) (xs : List Todo)
    → distinct_below b xs ≡ true
    → find_first (is_todo key) (erase_first id xs)
      ≡ (if key == id then none else find_first (is_todo key) xs)
find_first-erased b key id [] h = ground arith
find_first-erased b key id (x ∷ xs) h =
    ground (arith, find_first-erased b key id xs, find_first-none key xs)

find_first-missing :
    (key id : ℕ) (xs : List Todo)
    → find_first (is_todo id) xs ≡ none
    → find_first (is_todo key) xs ≡ (if key == id then none else find_first (is_todo key) xs)
find_first-missing key id xs h = elim (Bool-cases (key == id)) [
  | inl e ↦ rw (e, (==_iff key id).0 e) h
  | inr e ↦ rw e
]

-- A field that an update gives, or the stored one.
abbrev pub given_or {ℓ} : {A : Type ℓ} → Option A → A → A
given_or (some given) stored = given
given_or none stored = stored

-- A todo after an update with the given fields.
abbrev pub edited : ℕ → Option String → Option String → Option Bool → Todo → Todo
edited now title description completed item = record {
  id = item.id;
  title = given_or title item.title;
  description = given_or description item.description;
  completed = given_or completed item.completed;
  created_at = item.created_at;
  updated_at = now;
}

or_kept-given_or {ℓ} : {A : Type ℓ} (o : Option A) (a : A) → or_kept o a ≡ given_or o a
or_kept-given_or none a = refl
or_kept-given_or (some b) a = refl

changed-edited :
    (now : ℕ) (title description : Option String) (completed : Option Bool) (item : Todo)
    → changed now title description completed item ≡ edited now title description completed item
changed-edited now title description completed item = cc (
  or_kept-given_or title item.title,
  or_kept-given_or description item.description,
  or_kept-given_or completed item.completed,
)

-- Saving a todo in a well-formed repository puts it under the next id, with the instant of the
-- call, and leaves every other id as it was; the todo that comes back is the stored one.
pub save_lem :
    (now n : ℕ) (t : Todos) (todo : Todo)
    → WellFormed n t
    → let after = save now t todo in
      (after.0 ≡ record todo { id = t.next_id; created_at = now; updated_at = now })
      × ((key : ℕ) → abstract after.1 key ≡ put t.next_id (some after.0) (abstract t) key)
unfolding save find_todo_by_id
save_lem now n t todo w =
    (refl, λ key. find_first-saved key _ t.items (any-below t.next_id t.items w.distinct))

-- An update of a stored id answers the todo with the given fields and the instant, and changes that
-- id only; of an unknown id it answers nothing and changes nothing.
pub update_lem :
    (now : ℕ) (t : Todos) (id : ℕ) (title description : Option String) (completed : Option Bool)
    → let after = update now t id title description completed in
      (after.0 ≡ Option.map (edited now title description completed) (abstract t id))
      × ((key : ℕ) → abstract after.1 key ≡ put id after.0 (abstract t) key)
unfolding update find_todo_by_id
update_lem now t id title description completed =
    let f : Todo → Todo = changed now title description completed in
    elim (Option-cases (find_first (is_todo id) t.items)) [
      | inl e ↦ rw (e, update) (refl, λ key. find_first-missing key id t.items e)
      | inr (item, e) ↦
          rw (e, update)
            (
              ap some (changed-edited now title description completed item),
              λ key. find_first-changed key id f t.items item (λ x. refl) e,
            )
    ]

-- A removal answers whether the id was stored; in a well-formed repository the id is unknown
-- afterwards and every other one as it was.
pub remove_lem :
    (n : ℕ) (t : Todos) (id : ℕ)
    → WellFormed n t
    → let after = remove t id in
      (after.0 ≡ is_some (abstract t id))
      × ((key : ℕ) → abstract after.1 key ≡ put id none (abstract t) key)
unfolding remove find_todo_by_id
remove_lem n t id w = elim (Option-cases (find_first (is_todo id) t.items)) [
  | inl e ↦ rw (e, remove) (refl, λ key. find_first-missing key id t.items e)
  | inr (item, e) ↦
      rw (e, remove) (refl, λ key. find_first-erased t.next_id key id t.items w.distinct)
]

-- The repository implements a map from ids to todos. In a well-formed one, saving puts the todo
-- under the next id, which was unused, with the instant of the call; an update answers the todo
-- with the given fields and the instant and changes that id only, or answers nothing and changes
-- nothing where the id is unknown; a removal answers whether the id was known and makes it unknown;
-- and each leaves every other id as it was.
pub refines_map :
    (now n : ℕ) (t : Todos) (todo : Todo) (id : ℕ) (title description : Option String)
    (completed : Option Bool)
    → WellFormed n t
    → let saved = save now t todo in
      let updated = update now t id title description completed in
      let removed = remove t id in
      (abstract t t.next_id ≡ none)
      × (saved.0 ≡ record todo { id = t.next_id; created_at = now; updated_at = now })
      × ((key : ℕ) → abstract saved.1 key ≡ put t.next_id (some saved.0) (abstract t) key)
      × (updated.0 ≡ Option.map (edited now title description completed) (abstract t id))
      × ((key : ℕ) → abstract updated.1 key ≡ put id updated.0 (abstract t) key)
      × (removed.0 ≡ is_some (abstract t id))
      × ((key : ℕ) → abstract removed.1 key ≡ put id none (abstract t) key)
unfolding find_todo_by_id
refines_map now n t todo id title description completed w =
    let (stored, saving) = save_lem now n t todo w in
    let (answer, updating) = update_lem now t id title description completed in
    let (known, removing) = remove_lem n t id w in
    (
      find_first-none t.next_id t.items (any-below t.next_id t.items w.distinct),
      stored,
      saving,
      answer,
      updating,
      known,
      removing,
    )
