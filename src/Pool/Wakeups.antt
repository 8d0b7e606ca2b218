-- ===== src/Pool/Wakeups.antt =====
-- Whether a sleeping thread is woken where it could go on.
use cppbackend_api.Base.{
  ℕ, ◌+◌, ◌-◌, ◌≤◌, ◌<◌, ◌≡◌, Bool, true, false, none, List, [], ◌∷◌, arith, length, ltb, refl, ap,
  sym, ◌∙◌, if◌then◌else◌, is_nil, ◌||◌, ◌==◌, Bool-cases, inl, inr,
}
use cppbackend_api.Pool.{
  Pool, leave_failed, notify_one, new_pool, Attempt, can_proceed, get_connection, return_connection,
  take_connection,
}
use cppbackend_api.Pool.Steps.{
  Step, call, wait, wake, proceed, give_back, Reach, here, next, WellFormed, Reach-WellFormed,
}

-- How many threads could go on: the pooled connections and the ones that may still be made.
abbrev pub available : Pool → ℕ
available p = length p.pool + (p.max_pool_size - p.created_count)

-- No connection fails to be made where the pool is empty.
abbrev pub Connects : {p q : Pool} → Step p q → Type 0
Connects call = Unit
Connects (wait h e) = Unit
Connects (wake h) = Unit
Connects {p} (proceed a h e) = is_nil p.pool ≡ true → a.connects ≡ true
Connects (give_back o c h) = Unit

abbrev pub AllConnect : {s p : Pool} → Reach s p → Type 0
AllConnect here = Unit
AllConnect (next r step) = AllConnect r × Connects step

-- Where threads sleep, as many threads as could go on are awake.
abbrev pub Covered : Pool → Type 0
Covered p = 0 < p.asleep → available p ≤ p.awake

-- The place of a connection that could not be opened is given back, and a thread is woken for it.
replaced_place :
    (p : Pool)
    → 0 < p.awake
    → length p.pool ≡ 0
    → ltb p.created_count p.max_pool_size ≡ true
    → Covered p
    → Covered (leave_failed (notify_one (record p { created_count = p.created_count + 1 - 1 }))).1
replaced_place p running none_pooled room covered = elim (Bool-cases (p.asleep == 0)) [
  | inl none_asleep ↦ rw none_asleep (λ s. absurd (ground (arith, none_asleep, s)))
  | inr some_asleep ↦
      rw some_asleep
        (λ s. let h = covered (ground (arith, some_asleep)) in ground (arith, some_asleep))
]

take-Covered :
    (a : Attempt) (cs : List ℕ) (p : Pool)
    → p.pool ≡ cs
    → 0 < p.awake
    → (is_nil p.pool ≡ true → a.connects ≡ true)
    → can_proceed p ≡ true
    → WellFormed p
    → Covered p
    → Covered (take_connection a cs p).1
take-Covered a [] p e running connects ready w covered =
    let none_pooled : length p.pool ≡ 0 = ap length e in
    let room : ltb p.created_count p.max_pool_size ≡ true =
      sym (ap (λ (cs : List ℕ). if is_nil cs then ltb p.created_count p.max_pool_size else true) e)
      ∙ ready in
    let made : a.connects ≡ true = connects (ap is_nil e) in
    elim (Bool-cases (a.opens || a.reconnects)) [
      | inl good ↦ rw made (rw good (λ s. let h = covered s in ground arith))
      | inr bad ↦ rw made (rw bad (replaced_place p running none_pooled room covered))
    ]
take-Covered a (c ∷ rest) p e running connects ready w covered =
    let pooled : length p.pool ≡ length rest + 1 = ap length e ∙ omega arith in ground arith

none_available-of : (cs : List ℕ) (p : Pool) → p.pool ≡ cs → can_proceed p ≡ false → available p ≡ 0
none_available-of [] p e stuck =
    let none_pooled : length p.pool ≡ 0 = ap length e in
    let full : ltb p.created_count p.max_pool_size ≡ false =
      sym (ap (λ (cs : List ℕ). if is_nil cs then ltb p.created_count p.max_pool_size else true) e)
      ∙ stuck in
    ground arith
none_available-of (c ∷ rest) p e stuck =
    let ready : true ≡ can_proceed p =
      sym
        (ap (λ (cs : List ℕ). if is_nil cs then ltb p.created_count p.max_pool_size else true) e) in
    absurd (cc (ready ∙ stuck))

return_connection-Covered :
    (is_open : Bool) (c : ℕ) (p : Pool)
    → 0 < p.lent
    → WellFormed p
    → Covered p
    → Covered (return_connection is_open c p)
unfolding return_connection
return_connection-Covered is_open c p held w covered = ground arith

get_connection-Covered :
    (a : Attempt) (p : Pool)
    → 0 < p.awake
    → (is_nil p.pool ≡ true → a.connects ≡ true)
    → can_proceed p ≡ true
    → WellFormed p
    → Covered p
    → Covered (get_connection a p).1
unfolding get_connection
get_connection-Covered a p running connects ready w covered =
    take-Covered a p.pool p refl running connects ready w covered

Step-Covered : {p q : Pool} (st : Step p q) → Connects st → WellFormed p → Covered p → Covered q
Step-Covered call h w covered = λ s. let k = covered s in omega arith
Step-Covered {p} (wait running stuck) h w covered =
    λ s. omega (arith, none_available-of p.pool p refl stuck)
Step-Covered (wake slept) h w covered = λ s. let k = covered slept in omega arith
Step-Covered {p} (proceed a running ready) h w covered =
    get_connection-Covered a p running h ready w covered
Step-Covered {p} (give_back o c held) h w covered = return_connection-Covered o c p held w covered

-- As long as no connection fails to be made for an empty pool, no wake-up is lost: in every state
-- that the threads reach from a new pool, where a thread sleeps, at least as many threads are awake
-- as there are pooled connections and connections that may still be made.
pub no_lost_wakeup :
    (max : ℕ) (p : Pool) (r : Reach (new_pool max) p)
    → AllConnect r
    → 0 < p.asleep
    → available p ≤ p.awake
no_lost_wakeup max p here h = λ s. omega arith
no_lost_wakeup max p (next {p = q} r step) h =
    Step-Covered step h.1 (Reach-WellFormed max q r) (no_lost_wakeup max q r h.0)

-- A connection that cannot be made for an empty pool costs the wake-up: the caller gets the
-- exception, its place stays free, and the sleeping threads sleep on, also where no other thread is
-- awake.
pub failed_connection-wakes_none :
    (a : Attempt) (p : Pool)
    → p.pool ≡ []
    → can_proceed p ≡ true
    → a.connects ≡ false
    → p.awake ≡ 1
    → let (given, after) = get_connection a p in
      (given ≡ none) × (after.asleep ≡ p.asleep) × (after.awake ≡ 0) × (can_proceed after ≡ true)
unfolding get_connection
failed_connection-wakes_none a p empty ready fails alone =
    let failed : get_connection a p ≡ (none, record p { awake = p.awake - 1 }) =
      ap (λ (cs : List ℕ). take_connection a cs p) empty ∙ rw fails in
    rw failed (refl, refl, omega arith, ready)
