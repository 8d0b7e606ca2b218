-- ===== src/Todos/Postgres/Order.antt =====
-- The order of the two listings: the in-memory todos stand in the order of their ids, which is the
-- order that ORDER BY id asks for.
use cppbackend_api.Base.{
  ℕ, ◌≡◌, refl, ap, ◌∙◌, Bool, true, ◌&&◌, List, [], ◌∷◌, ◌++◌, arith, all, ltb, map,
}
use cppbackend_api.Domain.Entities.{Todo}
use cppbackend_api.Todos.{change_first, erase_first}
use cppbackend_api.Todos.Invariant.{distinct_below}
use cppbackend_api.Todos.Postgres.{insert_by_id, sorted_by_id, read_at}
use cppbackend_api.Todos.Postgres.Agreement.{AllAlike}

-- All ids are above one.
abbrev pub all_above : ℕ → List Todo → Bool
all_above id xs = all (λ y. ltb id y.id) xs

abbrev pub ascending : List Todo → Bool
ascending [] = true
ascending (x ∷ xs) = all_above x.id xs && ascending xs

all_above-appended :
    (id : ℕ) (x : Todo) (xs : List Todo)
    → all_above id xs ≡ true
    → ltb id x.id ≡ true
    → all_above id (xs ++ x ∷ []) ≡ true
all_above-appended id x [] h e = ground (arith, e)
all_above-appended id x (y ∷ xs) h e = ground (arith, all_above-appended id x xs)

pub ascending-appended :
    (b : ℕ) (x : Todo) (xs : List Todo)
    → x.id ≡ b
    → distinct_below b xs ≡ true
    → ascending xs ≡ true
    → ascending (xs ++ x ∷ []) ≡ true
ascending-appended b x [] e d h = refl
ascending-appended b x (y ∷ xs) e d h =
    ground (arith, ascending-appended b x xs e, all_above-appended y.id x xs)

all_above-changed :
    (k id : ℕ) (f : Todo → Todo) (xs : List Todo)
    → ((x : Todo) → (f x).id ≡ x.id)
    → all_above k (change_first id f xs) ≡ all_above k xs
all_above-changed k id f [] keeps = refl
all_above-changed k id f (x ∷ xs) keeps = ground (arith, keeps x, all_above-changed k id f xs keeps)

pub ascending-changed :
    (id : ℕ) (f : Todo → Todo) (xs : List Todo)
    → ((x : Todo) → (f x).id ≡ x.id)
    → ascending xs ≡ true
    → ascending (change_first id f xs) ≡ true
ascending-changed id f [] keeps h = refl
ascending-changed id f (x ∷ xs) keeps h =
    ground (arith, keeps x, ascending-changed id f xs keeps, all_above-changed x.id id f xs keeps)

all_above-erased :
    (k id : ℕ) (xs : List Todo) → all_above k xs ≡ true → all_above k (erase_first id xs) ≡ true
all_above-erased k id [] h = refl
all_above-erased k id (x ∷ xs) h = ground (arith, all_above-erased k id xs)

pub ascending-erased :
    (id : ℕ) (xs : List Todo) → ascending xs ≡ true → ascending (erase_first id xs) ≡ true
ascending-erased id [] h = refl
ascending-erased id (x ∷ xs) h = ground (arith, ascending-erased id xs, all_above-erased x.id id xs)

all_above-alike :
    (k : ℕ) (xs ys : List Todo) → AllAlike xs ys → all_above k xs ≡ true → all_above k ys ≡ true
all_above-alike k [] [] a h = refl
all_above-alike k [] (y ∷ ys) a h = absurd a
all_above-alike k (x ∷ xs) [] a h = absurd a
all_above-alike k (x ∷ xs) (y ∷ ys) a h = ground (arith, a.0.0, all_above-alike k xs ys a.1)

ascending-alike : (xs ys : List Todo) → AllAlike xs ys → ascending xs ≡ true → ascending ys ≡ true
ascending-alike [] [] a h = refl
ascending-alike [] (y ∷ ys) a h = absurd a
ascending-alike (x ∷ xs) [] a h = absurd a
ascending-alike (x ∷ xs) (y ∷ ys) a h =
    ground (arith, a.0.0, ascending-alike xs ys a.1, all_above-alike x.id xs ys a.1)

insert_by_id-first :
    (r : Todo) (rows : List Todo) → all_above r.id rows ≡ true → insert_by_id r rows ≡ r ∷ rows
insert_by_id-first r [] h = refl
insert_by_id-first r (q ∷ rows) h = ground arith

sorted_by_id-same : (rows : List Todo) → ascending rows ≡ true → sorted_by_id rows ≡ rows
sorted_by_id-same [] h = refl
sorted_by_id-same (r ∷ rows) h =
    ap (insert_by_id r) (sorted_by_id-same rows (ground arith))
    ∙ insert_by_id-first r rows (ground arith)

read-alike : (now : ℕ) (xs ys : List Todo) → AllAlike xs ys → AllAlike xs (map (read_at now) ys)
read-alike now [] [] a = tt
read-alike now [] (y ∷ ys) a = absurd a
read-alike now (x ∷ xs) [] a = absurd a
read-alike now (x ∷ xs) (y ∷ ys) a = (a.0, read-alike now xs ys a.1)

-- A table with the same todos in the order of their ids lists them in that order.
pub listed-alike :
    (now : ℕ) (xs ys : List Todo)
    → AllAlike xs ys
    → ascending xs ≡ true
    → AllAlike xs (map (read_at now) (sorted_by_id ys))
listed-alike now xs ys a h =
    rw (sorted_by_id-same ys (ascending-alike xs ys a h)) (read-alike now xs ys a)
