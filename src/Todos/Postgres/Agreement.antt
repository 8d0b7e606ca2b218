-- ===== src/Todos/Postgres/Agreement.antt =====
-- The two todo repositories compared, operation by operation and over runs.
use cppbackend_api.Base.{
  ℕ, ◌≡◌, sym, ap, ◌∙◌, Bool, true, false, not, inl, inr, Option, none, some, List, [], ◌∷◌, ◌++◌,
  String, arith, ◌==◌, ==_iff, any, select, update_where, find_first, Bool-cases,
}
use cppbackend_api.Domain.Entities.{Todo}
use cppbackend_api.Todos.{is_todo, changed, change_first, erase_first, or_kept}
use cppbackend_api.Todos.Invariant.{distinct_below}
use cppbackend_api.Todos.Postgres.{changed_row}

-- The same todo apart from its instants.
abbrev pub Alike : Todo → Todo → Type 0
Alike x y =
    (x.id ≡ y.id)
    × (x.title ≡ y.title)
    × (x.description ≡ y.description)
    × (x.completed ≡ y.completed)

abbrev pub AllAlike : List Todo → List Todo → Type 0
AllAlike [] [] = Unit
AllAlike [] (y ∷ ys) = ⊥
AllAlike (x ∷ xs) [] = ⊥
AllAlike (x ∷ xs) (y ∷ ys) = Alike x y × AllAlike xs ys

abbrev pub BothAlike : Option Todo → Option Todo → Type 0
BothAlike none none = Unit
BothAlike none (some y) = ⊥
BothAlike (some x) none = ⊥
BothAlike (some x) (some y) = Alike x y

pub find_first-alike :
    (id : ℕ) (xs ys : List Todo)
    → AllAlike xs ys
    → BothAlike (find_first (is_todo id) xs) (find_first (is_todo id) ys)
find_first-alike id [] [] h = tt
find_first-alike id [] (y ∷ ys) h = absurd h
find_first-alike id (x ∷ xs) [] h = absurd h
find_first-alike id (x ∷ xs) (y ∷ ys) h = elim (Bool-cases (x.id == id)) [
  | inl e ↦ let e' : (y.id == id) ≡ true = ground (arith, e) in rw e (rw e' h.0)
  | inr e ↦
      let e' : (y.id == id) ≡ false = ground (arith, e) in
      rw e (rw e' (find_first-alike id xs ys h.1))
]

pub append-Alike :
    (xs ys : List Todo) (x y : Todo)
    → AllAlike xs ys
    → Alike x y
    → AllAlike (xs ++ x ∷ []) (ys ++ y ∷ [])
append-Alike [] [] x y h e = (e, tt)
append-Alike [] (b ∷ ys) x y h e = absurd h
append-Alike (a ∷ xs) [] x y h e = absurd h
append-Alike (a ∷ xs) (b ∷ ys) x y h e = (h.0, append-Alike xs ys x y h.1 e)

-- Rows of other ids are left alone.
update_none-alike :
    (id : ℕ) (g : Todo → Todo) (xs ys : List Todo)
    → any (is_todo id) xs ≡ false
    → AllAlike xs ys
    → AllAlike xs (update_where (is_todo id) g ys)
update_none-alike id g [] [] free h = tt
update_none-alike id g [] (y ∷ ys) free h = absurd h
update_none-alike id g (x ∷ xs) [] free h = absurd h
update_none-alike id g (x ∷ xs) (y ∷ ys) free h =
    let e : (y.id == id) ≡ false = ground (arith, free) in
    (rw e h.0, update_none-alike id g xs ys (ground (arith, free)) h.1)

pub remove_none-alike :
    (id : ℕ) (xs ys : List Todo)
    → any (is_todo id) xs ≡ false
    → AllAlike xs ys
    → AllAlike xs (select (λ r. not (is_todo id r)) ys)
remove_none-alike id [] [] free h = tt
remove_none-alike id [] (y ∷ ys) free h = absurd h
remove_none-alike id (x ∷ xs) [] free h = absurd h
remove_none-alike id (x ∷ xs) (y ∷ ys) free h =
    let e : (y.id == id) ≡ false = ground (arith, free) in
    rw e (h.0, remove_none-alike id xs ys (ground (arith, free)) h.1)

other_ids :
    (b id : ℕ) (x : Todo) (xs : List Todo)
    → distinct_below b (x ∷ xs) ≡ true
    → (x.id == id) ≡ true
    → any (is_todo id) xs ≡ false
other_ids b id x xs d e =
    let same : x.id ≡ id = (==_iff x.id id).0 e in
    sym (ap (λ (k : ℕ). any (is_todo k) xs) same) ∙ ground (arith, d)

pub change-alike :
    (b id now later : ℕ) (title description : Option String) (completed : Option Bool)
    (xs ys : List Todo)
    → distinct_below b xs ≡ true
    → AllAlike xs ys
    → AllAlike
        (change_first id (changed now title description completed) xs)
        (update_where (is_todo id) (changed_row later title description completed) ys)
change-alike b id now later title description completed [] [] d h = tt
change-alike b id now later title description completed [] (y ∷ ys) d h = absurd h
change-alike b id now later title description completed (x ∷ xs) [] d h = absurd h
change-alike b id now later title description completed (x ∷ xs) (y ∷ ys) d h =
    elim (Bool-cases (x.id == id)) [
      | inl e ↦
          let e' : (y.id == id) ≡ true = ground (arith, e) in
          rw e (
            rw e'
              (changed_alike x y h.0, update_none-alike id _ xs ys (other_ids b id x xs d e) h.1))
      | inr e ↦
          let e' : (y.id == id) ≡ false = ground (arith, e) in
          rw e (
            rw e' (
              h.0,
              change-alike b id now later title description completed xs ys (ground (arith, d)) h.1,
            ))
    ]
  where
    changed_alike :
        (x y : Todo)
        → Alike x y
        → Alike
            (changed now title description completed x)
            (changed_row later title description completed y)
    changed_alike x y e =
        (e.0, ap (or_kept title) e.1, ap (or_kept description) e.2, ap (or_kept completed) e.3)

pub remove-alike :
    (b id : ℕ) (xs ys : List Todo)
    → distinct_below b xs ≡ true
    → AllAlike xs ys
    → AllAlike (erase_first id xs) (select (λ r. not (is_todo id r)) ys)
remove-alike b id [] [] d h = tt
remove-alike b id [] (y ∷ ys) d h = absurd h
remove-alike b id (x ∷ xs) [] d h = absurd h
remove-alike b id (x ∷ xs) (y ∷ ys) d h = elim (Bool-cases (x.id == id)) [
  | inl e ↦
      let e' : (y.id == id) ≡ true = ground (arith, e) in
      rw e (rw e' (remove_none-alike id xs ys (other_ids b id x xs d e) h.1))
  | inr e ↦
      let e' : (y.id == id) ≡ false = ground (arith, e) in
      rw e (rw e' (h.0, remove-alike b id xs ys (ground (arith, d)) h.1))
]
