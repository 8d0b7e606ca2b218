-- ===== src/Todos/Postgres/Runs.antt =====
-- Any sequence of operations on the two todo repositories.
use cppbackend_api.Base.{
  ℕ, suc, ◌+◌, ◌^◌, ◌<◌, ◌≡◌, refl, sym, ap, ◌∙◌, Bool, true, false, inl, inr, Option, none, some,
  List, [], ◌∷◌, String, arith, any, find_first, Option-cases, length, update_where, Bool-cases,
}
use cppbackend_api.Domain.Entities.{Todo}
use cppbackend_api.Db.{commits}
use cppbackend_api.Todos.{
  Todos, find_all, is_todo, find_todo_by_id, save, update, remove, changed, or_kept, change_first,
  erase_first,
}
use cppbackend_api.Todos.Invariant.{
  WellFormed, save-WellFormed, update-WellFormed, remove-WellFormed,
}
use cppbackend_api.Todos.Postgres.{
  TodoTable, find_all_rows, find_row, found_row, save_row, update_row, changed_row, remove_row,
  read_at,
}
use cppbackend_api.Todos.Postgres.Order.{
  ascending, ascending-appended, ascending-changed, ascending-erased, listed-alike,
}
use cppbackend_api.Todos.Postgres.Agreement.{
  Alike, AllAlike, BothAlike, find_first-alike, append-Alike, change-alike, remove-alike,
  remove_none-alike,
}

pub data Operation : Type 0 where
  lists : Operation
  finds : ℕ → Operation
  saves : Todo → Operation
  updates : ℕ → Option String → Option String → Option Bool → Operation
  removes : ℕ → Operation

pub data Answer : Type 0 where
  entities : List Todo → Answer
  entity : Option Todo → Answer
  done : Bool → Answer

-- Answers that agree apart from instants.
abbrev pub SameAnswer : Answer → Answer → Type 0
SameAnswer (entities a) (entities b) = AllAlike a b
SameAnswer (entities a) (entity b) = ⊥
SameAnswer (entities a) (done b) = ⊥
SameAnswer (entity a) (entities b) = ⊥
SameAnswer (entity a) (entity b) = BothAlike a b
SameAnswer (entity a) (done b) = ⊥
SameAnswer (done a) (entities b) = ⊥
SameAnswer (done a) (entity b) = ⊥
SameAnswer (done a) (done b) = a ≡ b

abbrev pub SameAnswers : List Answer → List Answer → Type 0
SameAnswers [] [] = Unit
SameAnswers [] (b ∷ bs) = ⊥
SameAnswers (a ∷ as') [] = ⊥
SameAnswers (a ∷ as') (b ∷ bs) = SameAnswer a b × SameAnswers as' bs

abbrev pub in_memory_step : ℕ → Operation → Todos → Answer × Todos
in_memory_step now lists t = (entities (find_all t), t)
in_memory_step now (finds id) t = (entity (find_todo_by_id t id), t)
in_memory_step now (saves todo) t = let saved = save now t todo in (entity (some saved.0), saved.1)
in_memory_step now (updates id title description completed) t =
    let updated = update now t id title description completed in (entity updated.0, updated.1)
in_memory_step now (removes id) t = let removed = remove t id in (done removed.0, removed.1)

abbrev pub in_postgres_step : ℕ → Operation → TodoTable → Answer × TodoTable
in_postgres_step now lists t = (entities (find_all_rows commits now t), t)
in_postgres_step now (finds id) t = (entity (find_row commits now t id), t)
in_postgres_step now (saves todo) t =
    let saved = save_row commits now t todo in (entity (some saved.0), saved.1)
in_postgres_step now (updates id title description completed) t =
    let updated = update_row commits now t id title description completed in
    (entity updated.0, updated.1)
in_postgres_step now (removes id) t =
    let removed = remove_row commits t id in (done removed.0, removed.1)

-- The answers of a sequence of operations, each at its instant.
abbrev pub in_memory_run : List (ℕ × Operation) → Todos → List Answer
in_memory_run [] t = []
in_memory_run ((now, op) ∷ ops) t =
    let step = in_memory_step now op t in step.0 ∷ in_memory_run ops step.1

abbrev pub in_postgres_run : List (ℕ × Operation) → TodoTable → List Answer
in_postgres_run [] t = []
in_postgres_run ((now, op) ∷ ops) t =
    let step = in_postgres_step now op t in step.0 ∷ in_postgres_run ops step.1

-- The same operations so much later.
abbrev pub shifted : ℕ → List (ℕ × Operation) → List (ℕ × Operation)
shifted shift [] = []
shifted shift ((now, op) ∷ ops) = (now + shift, op) ∷ shifted shift ops

-- The same todos in the same order, that of their ids, and the same next id.
pub record Agree (t : Todos) (p : TodoTable) : Type 0 where
  pub alike : AllAlike t.items p.rows
  pub next : t.next_id ≡ p.next_id
  pub in_order : ascending t.items ≡ true

-- One step on both sides: like answers, and states that agree again.
record StepsAlike (n now later : ℕ) (op : Operation) (t : Todos) (p : TodoTable) : Type 0 where
  answer : SameAnswer (in_memory_step now op t).0 (in_postgres_step later op p).0
  after : Agree (in_memory_step now op t).1 (in_postgres_step later op p).1
  formed : WellFormed (suc n) (in_memory_step now op t).1

read-alike : (later : ℕ) (a b : Option Todo) → BothAlike a b → BothAlike a (found_row later b)
read-alike later none none h = tt
read-alike later none (some y) h = absurd h
read-alike later (some x) none h = absurd h
read-alike later (some x) (some y) h = h

is_todo_of :
    (id : ℕ) (rows : List Todo) (r : Todo) → find_first (is_todo id) rows ≡ some r → r.id ≡ id
is_todo_of id [] r h = absurd (cc h)
is_todo_of id (q ∷ rows) r h = elim (Bool-cases (is_todo id q)) [
  | inl e ↦ ground (arith, e)
  | inr e ↦ is_todo_of id rows r (sym (rw e) ∙ h)
]

any_found :
    (id : ℕ) (rows : List Todo) (r : Todo)
    → find_first (is_todo id) rows ≡ some r
    → any (is_todo id) rows ≡ true
any_found id [] r h = absurd (cc h)
any_found id (q ∷ rows) r h = ground (arith, any_found id rows r)

any_missing :
    (id : ℕ) (rows : List Todo)
    → find_first (is_todo id) rows ≡ none
    → any (is_todo id) rows ≡ false
any_missing id [] h = refl
any_missing id (q ∷ rows) h = ground (arith, any_missing id rows)

-- What the other side has where one side's look-up is known.
absent_too : (a b : Option Todo) → BothAlike a b → a ≡ none → b ≡ none
absent_too none none h e = refl
absent_too none (some y) h e = absurd h
absent_too (some x) b h e = cc

present_too :
    (a b : Option Todo) (x : Todo)
    → BothAlike a b
    → a ≡ some x
    → (y : Todo) × (b ≡ some y) × Alike x y
present_too none b x h e = cc
present_too (some z) none x h e = absurd h
present_too (some z) (some y) x h e = (y, refl, let same : z ≡ x = cc e in rw (← same) h)

module _ (n now later : ℕ) (t : Todos) (p : TodoTable) (small : n < 2 ^ 63) (w : WellFormed n t)
    (a : Agree t p) where
  finds-alike : (id : ℕ) → BothAlike (find_todo_by_id t id) (find_row commits later p id)
  unfolding find_todo_by_id find_row
  finds-alike id = read-alike later _ _ (find_first-alike id t.items p.rows a.alike)

  lists-alike : AllAlike (find_all t) (find_all_rows commits later p)
  unfolding find_all_rows
  lists-alike = listed-alike later t.items p.rows a.alike a.in_order

  saves-alike : (todo : Todo) → StepsAlike n now later (saves todo) t p
  unfolding save save_row
  saves-alike todo = record {
    answer = (a.next, refl, refl, refl);
    after = record {
      alike = append-Alike t.items p.rows _ _ a.alike (a.next, refl, refl, refl);
      next = omega (arith, a.next, w.bounded, small);
      in_order = ascending-appended t.next_id _ t.items refl w.distinct a.in_order;
    };
    formed = save-WellFormed now n t todo small w;
  }

  updates-alike :
      (id : ℕ) (title description : Option String) (completed : Option Bool)
      → StepsAlike n now later (updates id title description completed) t p
  unfolding update update_row
  updates-alike id title description completed =
      let both = find_first-alike id t.items p.rows a.alike in
      let formed = update-WellFormed now n t id title description completed w in
      elim (Option-cases (find_first (is_todo id) t.items)) [
        | inl e ↦
            let e' = absent_too _ _ both e in
            let left : update now t id title description completed ≡ (none, t) = rw (e, update) in
            let right : update_row commits later p id title description completed ≡ (none, p) =
              rw (e', update_row) in
            record { answer = rw left (rw right tt); after = rw left (rw right a); formed = formed }
        | inr (x, e) ↦
            let (y, e', like) = present_too _ _ x both e in
            let f = changed now title description completed in
            let g = changed_row later title description completed in
            let left : update now t id title description completed
                ≡ (some (f x), record t { items = change_first id f t.items }) =
              rw (e, update) in
            let right : update_row commits later p id title description completed ≡ (
              some (read_at later (record (g y) { id = id })),
              record p { rows = update_where (is_todo id) g p.rows },
            ) =
              rw (e', update_row) in
            record {
              answer = rw left (
                  rw right (
                    is_todo_of id t.items x e,
                    ap (or_kept title) like.1,
                    ap (or_kept description) like.2,
                    ap (or_kept completed) like.3,
                  ));
              after = rw left (
                  rw right (record {
                    alike =
                        change-alike t.next_id id now later title description completed t.items
                          p.rows w.distinct a.alike;
                    next = a.next;
                    in_order = ascending-changed id f t.items (λ x. refl) a.in_order;
                  }));
              formed = formed;
            }
      ]

  removes-alike : (id : ℕ) → StepsAlike n now later (removes id) t p
  unfolding remove remove_row
  removes-alike id =
      let both = find_first-alike id t.items p.rows a.alike in
      let formed = remove-WellFormed n t id w in
      let kept = remove-alike t.next_id id t.items p.rows w.distinct a.alike in
      elim (Option-cases (find_first (is_todo id) t.items)) [
        | inl e ↦
            let left : remove t id ≡ (false, t) = rw (e, remove) in
            record {
              answer = rw left (sym (any_missing id p.rows (absent_too _ _ both e)));
              after = rw left (record {
                alike = remove_none-alike id t.items p.rows (any_missing id t.items e) a.alike;
                next = a.next;
                in_order = a.in_order;
              });
              formed = formed;
            }
        | inr (x, e) ↦
            let (y, e', like) = present_too _ _ x both e in
            let left : remove t id ≡ (true, record t { items = erase_first id t.items }) =
              rw (e, remove) in
            record {
              answer = rw left (sym (any_found id p.rows y e'));
              after = rw left (record {
                alike = kept;
                next = a.next;
                in_order = ascending-erased id t.items a.in_order;
              });
              formed = formed;
            }
      ]

  step-alike : (op : Operation) → StepsAlike n now later op t p
  step-alike lists = record {
    answer = lists-alike;
    after = a;
    formed = record { distinct = w.distinct; bounded = omega (arith, w.bounded) };
  }
  step-alike (finds id) = record {
    answer = finds-alike id;
    after = a;
    formed = record { distinct = w.distinct; bounded = omega (arith, w.bounded) };
  }
  step-alike (saves todo) = saves-alike todo
  step-alike (updates id title description completed) = updates-alike id title description completed
  step-alike (removes id) = removes-alike id

-- The two repositories answer any sequence of the interface's five operations alike, apart from
-- instants, also where the one runs so much later than the other: from states that hold the same
-- todos in the order of their ids and the same next id, the in-memory one well formed after `n` operations, where every call commits and fewer
-- than 2^63 operations are made in all.
pub repositories_agree :
    (n : ℕ) (ops : List (ℕ × Operation)) (shift : ℕ) (t : Todos) (p : TodoTable)
    → n + length ops < 2 ^ 63
    → WellFormed n t
    → Agree t p
    → SameAnswers (in_memory_run ops t) (in_postgres_run (shifted shift ops) p)
repositories_agree n [] shift t p small w a = tt
repositories_agree n ((now, op) ∷ ops) shift t p small w a =
    let s = step-alike n now (now + shift) t p (omega (arith, small)) w a op in
    (s.answer, repositories_agree (suc n) ops shift _ _ (omega (arith, small)) s.formed s.after)
