-- ===== src/Pool/Steps.antt =====
-- The threads of the pool as a step relation, and what holds in every state that they reach.
use cppbackend_api.Base.{
  ℕ, ◌+◌, ◌-◌, ◌≤◌, ◌<◌, ◌≡◌, Bool, true, false, List, [], ◌∷◌, arith, length, ltb, refl, ap, sym,
  ◌∙◌, if◌then◌else◌, is_nil,
}
use cppbackend_api.Pool.{
  Pool, new_pool, Attempt, can_proceed, get_connection, return_connection, take_connection,
}

-- Threads call getConnection, fall asleep where they cannot proceed, proceed where they can, and give
-- connections back; a sleeping thread may also wake by itself.
pub data Step (p : Pool) : Pool → Type 0 where
  call : Step p (record p { awake = p.awake + 1 })
  wait :
      0 < p.awake
      → can_proceed p ≡ false
      → Step p (record p { awake = p.awake - 1; asleep = p.asleep + 1 })
  wake : 0 < p.asleep → Step p (record p { awake = p.awake + 1; asleep = p.asleep - 1 })
  proceed : (a : Attempt) → 0 < p.awake → can_proceed p ≡ true → Step p (get_connection a p).1
  give_back : (is_open : Bool) (c : ℕ) → 0 < p.lent → Step p (return_connection is_open c p)

pub data Reach (s : Pool) : Pool → Type 0 where
  here : Reach s s
  next : {p q : Pool} → Reach s p → Step p q → Reach s q

-- Every connection that was made is in the pool or lent, and there are at most as many as allowed.
pub record WellFormed (p : Pool) : Type 0 where
  pub accounted : p.created_count ≡ length p.pool + p.lent
  pub bounded : p.created_count ≤ p.max_pool_size

take-WellFormed :
    (a : Attempt) (cs : List ℕ) (p : Pool)
    → p.pool ≡ cs
    → can_proceed p ≡ true
    → WellFormed p
    → WellFormed (take_connection a cs p).1
take-WellFormed a [] p e ready w =
    let none_pooled : length p.pool ≡ 0 = ap length e in
    let room : ltb p.created_count p.max_pool_size ≡ true =
      sym (ap (λ (cs : List ℕ). if is_nil cs then ltb p.created_count p.max_pool_size else true) e)
      ∙ ready in
    ground arith
take-WellFormed a (c ∷ rest) p e ready w =
    let pooled : length p.pool ≡ length rest + 1 = ap length e ∙ omega arith in ground arith

get_connection-WellFormed :
    (a : Attempt) (p : Pool)
    → can_proceed p ≡ true
    → WellFormed p
    → WellFormed (get_connection a p).1
unfolding get_connection
get_connection-WellFormed a p ready w = take-WellFormed a p.pool p refl ready w

return_connection-WellFormed :
    (is_open : Bool) (c : ℕ) (p : Pool)
    → 0 < p.lent
    → WellFormed p
    → WellFormed (return_connection is_open c p)
unfolding return_connection
return_connection-WellFormed is_open c p held w = ground arith

pub Step-WellFormed : {p q : Pool} → Step p q → WellFormed p → WellFormed q
Step-WellFormed call w = record { accounted = w.accounted; bounded = w.bounded }
Step-WellFormed (wait h e) w = record { accounted = w.accounted; bounded = w.bounded }
Step-WellFormed (wake h) w = record { accounted = w.accounted; bounded = w.bounded }
Step-WellFormed {p} (proceed a h e) w = get_connection-WellFormed a p e w
Step-WellFormed {p} (give_back o c h) w = return_connection-WellFormed o c p h w

-- In every state that the threads reach from a new pool, however connecting fares and connections
-- close: each connection that was made and not given up is either pooled or lent, and no more are
-- made than the pool allows.
pub Reach-WellFormed : (max : ℕ) (p : Pool) → Reach (new_pool max) p → WellFormed p
Reach-WellFormed max p here = record { accounted = omega arith; bounded = omega arith }
Reach-WellFormed max p (next {p = q} r step) = Step-WellFormed step (Reach-WellFormed max q r)
