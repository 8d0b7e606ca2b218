-- ===== src/Todos/Invariant.antt =====
-- Runs of the in-memory repository: ids are distinct and below the next one.
use cppbackend_api.Base.{
  ℕ, suc, ◌+◌, ◌^◌, ◌≤◌, ◌<◌, ◌≡◌, refl, Bool, true, false, not, ◌&&◌, inl, inr, Option, List, [],
  ◌∷◌, ◌++◌, String, arith, find_first, any, ltb, Option-cases,
}
use cppbackend_api.Domain.Entities.{Todo}
use cppbackend_api.Todos.{
  Todos, bumped, initial, is_todo, save, changed, change_first, update, erase_first, remove,
}

-- One operation that changes the state.
pub data Step : Todos → Todos → Type 0 where
  saves : (now : ℕ) (t : Todos) (todo : Todo) → Step t (save now t todo).1
  updates :
      (now : ℕ) (t : Todos) (id : ℕ) (title description : Option String) (completed : Option Bool)
      → Step t (update now t id title description completed).1
  removes : (t : Todos) (id : ℕ) → Step t (remove t id).1

-- A run of so many operations from the constructor's state.
pub data Run : ℕ → Todos → Type 0 where
  starts : (now : ℕ) → Run 0 (initial now)
  runs : (n : ℕ) (t t' : Todos) → Run n t → Step t t' → Run (suc n) t'

-- Ids are distinct and below a bound.
abbrev pub distinct_below : ℕ → List Todo → Bool
distinct_below bound [] = true
distinct_below bound (x ∷ xs) =
    ltb x.id bound && not (any (is_todo x.id) xs) && distinct_below bound xs

pub record WellFormed (n : ℕ) (t : Todos) : Type 0 where
  pub distinct : distinct_below t.next_id t.items ≡ true
  pub bounded : t.next_id ≤ n + 3

distinct_below-more :
    (b b' : ℕ) (xs : List Todo) → b ≤ b' → distinct_below b xs ≡ true → distinct_below b' xs ≡ true
distinct_below-more b b' [] le h = refl
distinct_below-more b b' (x ∷ xs) le h = ground (arith, distinct_below-more b b' xs le)

pub any-below : (b : ℕ) (xs : List Todo) → distinct_below b xs ≡ true → any (is_todo b) xs ≡ false
any-below b [] h = refl
any-below b (x ∷ xs) h = ground (arith, any-below b xs)

any-appended :
    (id : ℕ) (x : Todo) (xs : List Todo)
    → any (is_todo id) xs ≡ false
    → is_todo id x ≡ false
    → any (is_todo id) (xs ++ x ∷ []) ≡ false
any-appended id x [] h e = ground arith
any-appended id x (y ∷ xs) h e = ground (arith, any-appended id x xs)

distinct_below-appended :
    (b b' : ℕ) (x : Todo) (xs : List Todo)
    → b < b'
    → x.id ≡ b
    → distinct_below b xs ≡ true
    → distinct_below b' (xs ++ x ∷ []) ≡ true
distinct_below-appended b b' x [] lt e h = ground arith
distinct_below-appended b b' x (y ∷ xs) lt e h =
    ground (arith, distinct_below-appended b b' x xs lt e, any-appended y.id x xs)

any-changed :
    (id key : ℕ) (f : Todo → Todo) (xs : List Todo)
    → ((x : Todo) → (f x).id ≡ x.id)
    → any (is_todo key) (change_first id f xs) ≡ any (is_todo key) xs
any-changed id key f [] keeps = refl
any-changed id key f (x ∷ xs) keeps = ground (arith, keeps x, any-changed id key f xs keeps)

distinct_below-changed :
    (b id : ℕ) (f : Todo → Todo) (xs : List Todo)
    → ((x : Todo) → (f x).id ≡ x.id)
    → distinct_below b xs ≡ true
    → distinct_below b (change_first id f xs) ≡ true
distinct_below-changed b id f [] keeps h = refl
distinct_below-changed b id f (x ∷ xs) keeps h =
    ground (arith, keeps x, distinct_below-changed b id f xs keeps, any-changed id x.id f xs keeps)

any-erased :
    (id key : ℕ) (xs : List Todo)
    → any (is_todo key) xs ≡ false
    → any (is_todo key) (erase_first id xs) ≡ false
any-erased id key [] h = refl
any-erased id key (x ∷ xs) h = ground (arith, any-erased id key xs)

distinct_below-erased :
    (b id : ℕ) (xs : List Todo)
    → distinct_below b xs ≡ true
    → distinct_below b (erase_first id xs) ≡ true
distinct_below-erased b id [] h = refl
distinct_below-erased b id (x ∷ xs) h =
    ground (arith, distinct_below-erased b id xs, any-erased id x.id xs)

bumped-small : (id n : ℕ) → id ≤ n + 3 → n < 2 ^ 63 → bumped id ≡ id + 1
bumped-small id n le small = omega (arith, le, small)

pub save-WellFormed :
    (now n : ℕ) (t : Todos) (todo : Todo)
    → n < 2 ^ 63
    → WellFormed n t
    → WellFormed (suc n) (save now t todo).1
unfolding save
save-WellFormed now n t todo small w =
    let next : bumped t.next_id ≡ t.next_id + 1 = bumped-small t.next_id n w.bounded small in
    record {
      distinct = rw next (
          distinct_below-appended t.next_id (t.next_id + 1) _ t.items (omega arith) refl
            w.distinct);
      bounded = rw next (omega (arith, w.bounded));
    }

pub update-WellFormed :
    (now n : ℕ) (t : Todos) (id : ℕ) (title description : Option String) (completed : Option Bool)
    → WellFormed n t
    → WellFormed (suc n) (update now t id title description completed).1
unfolding update
update-WellFormed now n t id title description completed w =
    elim (Option-cases (find_first (is_todo id) t.items)) [
      | inl e ↦
          rw (e, update) (record { distinct = w.distinct; bounded = omega (arith, w.bounded) })
      | inr (item, e) ↦
          rw (e, update)
            (record {
              distinct =
                  distinct_below-changed t.next_id id (changed now title description completed)
                    t.items (λ x. refl) w.distinct;
              bounded = omega (arith, w.bounded);
            })
    ]

pub remove-WellFormed :
    (n : ℕ) (t : Todos) (id : ℕ) → WellFormed n t → WellFormed (suc n) (remove t id).1
unfolding remove
remove-WellFormed n t id w = elim (Option-cases (find_first (is_todo id) t.items)) [
  | inl e ↦ rw (e, remove) (record { distinct = w.distinct; bounded = omega (arith, w.bounded) })
  | inr (item, e) ↦
      rw (e, remove)
        (record {
          distinct = distinct_below-erased t.next_id id t.items w.distinct;
          bounded = omega (arith, w.bounded);
        })
]

Step-WellFormed :
    (n : ℕ) (t t' : Todos) → n < 2 ^ 63 → WellFormed n t → Step t t' → WellFormed (suc n) t'
Step-WellFormed n _ _ small w (saves now t todo) = save-WellFormed now n t todo small w
Step-WellFormed n _ _ small w (updates now t id title description completed) =
    update-WellFormed now n t id title description completed w
Step-WellFormed n _ _ small w (removes t id) = remove-WellFormed n t id w

-- In a run of fewer than 2^63 operations the ids stay distinct and below the next one, which has
-- not wrapped around.
pub Run-WellFormed : (n : ℕ) (t : Todos) → n < 2 ^ 63 → Run n t → WellFormed n t
unfolding initial
Run-WellFormed _ _ small (starts now) = record { distinct = refl; bounded = omega arith }
Run-WellFormed _ _ small (runs m s t before step) =
    Step-WellFormed m s t (omega (arith, small)) (Run-WellFormed m s (omega (arith, small)) before)
      step
