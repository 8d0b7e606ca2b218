-- ===== src/Db/Sessions/Order.antt =====
-- What ORDER BY created_at DESC does, in whatever order rows of one instant come.
use mathlib.Core.List.{Perm}
use mathlib.Core.List.Perm
use cppbackend_api.Base.{
  ℕ, suc, ◌≡◌, refl, ap, ◌∙◌, Bool, true, false, not, ◌&&◌, ◌||◌, inl, inr, List, [], ◌∷◌, arith,
  ltb, ◌==◌, all, any, length, All, Bool-cases,
}
use cppbackend_api.Db.{SessionRow}
use cppbackend_api.Db.Sessions.{Ties, comes_first, insert_newest, newest_first}

-- All of a list are older than an instant, and each row of a list is newer than the ones after it.
abbrev pub all_older : ℕ → List SessionRow → Bool
all_older instant rows = all (λ q. ltb q.created_at instant) rows

abbrev pub newest_to_oldest : List SessionRow → Bool
newest_to_oldest [] = true
newest_to_oldest (r ∷ rows) = all_older r.created_at rows && newest_to_oldest rows

-- No two rows are of one instant.
abbrev pub of_instant : ℕ → SessionRow → Bool
of_instant instant q = q.created_at == instant

abbrev pub distinct_instants : List SessionRow → Bool
distinct_instants [] = true
distinct_instants (r ∷ rows) = not (any (of_instant r.created_at) rows) && distinct_instants rows

module _ (ties : Ties) where
  length-insert_newest :
      (r : SessionRow) (rows : List SessionRow)
      → length (insert_newest ties r rows) ≡ suc (length rows)
  length-insert_newest r [] = refl
  length-insert_newest r (q ∷ rows) = elim (Bool-cases (comes_first ties r q)) [
    | inl e ↦ rw e refl
    | inr e ↦ rw e (ap suc (length-insert_newest r rows))
  ]

  pub length-newest_first : (rows : List SessionRow) → length (newest_first ties rows) ≡ length rows
  length-newest_first [] = refl
  length-newest_first (r ∷ rows) =
      length-insert_newest r (newest_first ties rows) ∙ ap suc (length-newest_first rows)

  insert_newest-perm :
      (r : SessionRow) (rows : List SessionRow) → Perm (insert_newest ties r rows) (r ∷ rows)
  insert_newest-perm r [] = Perm.rfl
  insert_newest-perm r (q ∷ rows) = elim (Bool-cases (comes_first ties r q)) [
    | inl e ↦ rw e Perm.rfl
    | inr e ↦ rw e (Perm.trans (Perm.cons q (insert_newest-perm r rows)) (Perm.swap r q rows))
  ]

  pub newest_first-perm : (rows : List SessionRow) → Perm (newest_first ties rows) rows
  newest_first-perm [] = Perm.rfl
  newest_first-perm (r ∷ rows) =
      Perm.trans (insert_newest-perm r (newest_first ties rows))
        (Perm.cons r (newest_first-perm rows))

  module _ {ℓ} (P : SessionRow → Type ℓ) where
    All-insert_newest :
        (r : SessionRow) (rows : List SessionRow)
        → P r
        → All P rows
        → All P (insert_newest ties r rows)
    All-insert_newest r [] h hs = (h, tt)
    All-insert_newest r (q ∷ rows) h hs = elim (Bool-cases (comes_first ties r q)) [
      | inl e ↦ rw e (h, hs)
      | inr e ↦ rw e (hs.0, All-insert_newest r rows h hs.1)
    ]

    pub All-newest_first : (rows : List SessionRow) → All P rows → All P (newest_first ties rows)
    All-newest_first [] hs = tt
    All-newest_first (r ∷ rows) hs =
        All-insert_newest r (newest_first ties rows) hs.0 (All-newest_first rows hs.1)

  any-insert_newest :
      (instant : ℕ) (r : SessionRow) (rows : List SessionRow)
      → any (of_instant instant) (insert_newest ties r rows)
        ≡ (of_instant instant r || any (of_instant instant) rows)
  any-insert_newest instant r [] = refl
  any-insert_newest instant r (q ∷ rows) = elim (Bool-cases (comes_first ties r q)) [
    | inl e ↦ rw e refl
    | inr e ↦ rw e (ground (arith, any-insert_newest instant r rows))
  ]

  any-newest_first :
      (instant : ℕ) (rows : List SessionRow)
      → any (of_instant instant) (newest_first ties rows) ≡ any (of_instant instant) rows
  any-newest_first instant [] = refl
  any-newest_first instant (r ∷ rows) =
      any-insert_newest instant r (newest_first ties rows)
      ∙ ap (λ (b : Bool). of_instant instant r || b) (any-newest_first instant rows)

  all_older-insert_newest :
      (instant : ℕ) (r : SessionRow) (rows : List SessionRow)
      → ltb r.created_at instant ≡ true
      → all_older instant rows ≡ true
      → all_older instant (insert_newest ties r rows) ≡ true
  all_older-insert_newest instant r [] h hs = ground (arith, h)
  all_older-insert_newest instant r (q ∷ rows) h hs = elim (Bool-cases (comes_first ties r q)) [
    | inl e ↦ rw e (ground (arith, h, hs))
    | inr e ↦ rw e (ground (arith, h, hs, all_older-insert_newest instant r rows))
  ]

  all_older-more :
      (a b : ℕ) (rows : List SessionRow)
      → ltb a b ≡ true
      → all_older a rows ≡ true
      → all_older b rows ≡ true
  all_older-more a b [] lt h = refl
  all_older-more a b (q ∷ rows) lt h = ground (arith, lt, h, all_older-more a b rows lt)

  newest_to_oldest-insert_newest :
      (r : SessionRow) (rows : List SessionRow)
      → any (of_instant r.created_at) rows ≡ false
      → newest_to_oldest rows ≡ true
      → newest_to_oldest (insert_newest ties r rows) ≡ true
  newest_to_oldest-insert_newest r [] new h = refl
  newest_to_oldest-insert_newest r (q ∷ rows) new h =
      elim (Bool-cases (ltb q.created_at r.created_at)) [
        | inl e ↦
            let first : comes_first ties r q ≡ true = ground (arith, e) in
            rw first (ground (arith, h, e, all_older-more q.created_at r.created_at rows e))
        | inr e ↦
            let later : comes_first ties r q ≡ false = ground (arith, e, new) in
            let older : ltb r.created_at q.created_at ≡ true = ground (arith, e, new) in
            rw later (
              ground (
                arith,
                h,
                new,
                newest_to_oldest-insert_newest r rows,
                all_older-insert_newest q.created_at r rows older,
              ))
      ]

  pub newest_to_oldest-newest_first :
      (rows : List SessionRow)
      → distinct_instants rows ≡ true
      → newest_to_oldest (newest_first ties rows) ≡ true
  newest_to_oldest-newest_first [] h = refl
  newest_to_oldest-newest_first (r ∷ rows) h =
      newest_to_oldest-insert_newest r (newest_first ties rows)
        (any-newest_first r.created_at rows ∙ ground (arith, h))
        (newest_to_oldest-newest_first rows (ground (arith, h)))

-- Where no two rows are of one instant, there is one order only.
insert_newest-same :
    (ties ties' : Ties) (r : SessionRow) (rows : List SessionRow)
    → any (of_instant r.created_at) rows ≡ false
    → insert_newest ties r rows ≡ insert_newest ties' r rows
insert_newest-same ties ties' r [] h = refl
insert_newest-same ties ties' r (q ∷ rows) h = elim (Bool-cases (ltb q.created_at r.created_at)) [
  | inl e ↦
      let first : comes_first ties r q ≡ true = ground (arith, e) in
      let first' : comes_first ties' r q ≡ true = ground (arith, e) in rw first (rw first' refl)
  | inr e ↦
      let later : comes_first ties r q ≡ false = ground (arith, e, h) in
      let later' : comes_first ties' r q ≡ false = ground (arith, e, h) in
      rw later (
        rw later' (
          ap (λ (rest : List SessionRow). q ∷ rest)
            (insert_newest-same ties ties' r rows (ground (arith, h)))))
]

pub newest_first-same :
    (ties ties' : Ties) (rows : List SessionRow)
    → distinct_instants rows ≡ true
    → newest_first ties rows ≡ newest_first ties' rows
newest_first-same ties ties' [] h = refl
newest_first-same ties ties' (r ∷ rows) h =
    insert_newest-same ties ties' r (newest_first ties rows)
      (any-newest_first ties r.created_at rows ∙ ground (arith, h))
    ∙ ap (insert_newest ties' r) (newest_first-same ties ties' rows (ground (arith, h)))
