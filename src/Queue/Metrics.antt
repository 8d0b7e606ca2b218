-- ===== src/Queue/Metrics.antt =====
-- The metrics count every message once.
pub mod Runs
use cppbackend_api.Base.{
  ℕ, zero, suc, ◌+◌, ◌≡◌, ◌⊎◌, refl, sym, ap, ◌∙◌, Bool, true, false, ◌&&◌, ◌||◌, inl, inr, none,
  some, List, [], ◌∷◌, ◌++◌, String, str_eq, eq_iff, eq_refl, if◌then◌else◌, arith, any, all, All,
  length, select, map, update_where, Bool-cases, Option-cases,
}
use cppbackend_api.Domain.Result.{ApiResponse, respond}
use cppbackend_api.Domain.Entities.{QueueMessage}
use cppbackend_api.Db.{Outcome, commits, refused, rolled_back}
use cppbackend_api.Queue.{
  Queue, QueueMetrics, rows_with, metrics_of, insert_topic, topics_of, get_metrics,
}
use cppbackend_api.Queue.UseCases.{QueueMetricsResponse, metrics_response, metrics}

-- The four statuses that the program writes.
abbrev pub known_status : QueueMessage → Bool
known_status m =
    str_eq m.status "PENDING"
    || str_eq m.status "PROCESSING"
    || str_eq m.status "COMPLETED"
    || str_eq m.status "FAILED"

-- How many messages of a topic have a status.
abbrev pub number_with : String → String → List QueueMessage → ℕ
number_with topic status ms =
    length (select (λ m. str_eq m.topic topic && str_eq m.status status) ms)

-- An entry has the four numbers of its topic.
abbrev pub IsExact : List QueueMessage → QueueMetricsResponse → Type 0
IsExact ms m =
    (m.pending ≡ number_with m.topic "PENDING" ms)
    × (m.processing ≡ number_with m.topic "PROCESSING" ms)
    × (m.completed ≡ number_with m.topic "COMPLETED" ms)
    × (m.failed ≡ number_with m.topic "FAILED" ms)

-- The entries of a topic in an answer.
abbrev pub entries_of : String → List QueueMetricsResponse → ℕ
entries_of t [] = 0
entries_of t (m ∷ ms) = (if str_eq m.topic t then 1 else 0) + entries_of t ms

-- The messages that one entry counts, and those of a whole answer.
abbrev pub entry_total : QueueMetricsResponse → ℕ
entry_total m = m.pending + m.processing + m.completed + m.failed

abbrev pub total : List QueueMetricsResponse → ℕ
total [] = 0
total (m ∷ ms) = entry_total m + total ms

abbrev of_topic : String → List QueueMessage → ℕ
of_topic t ms = entry_total (metrics_response (metrics_of ms t))

abbrev one_if : Bool → ℕ
one_if b = if b then 1 else 0

abbrev occurrences : String → List String → ℕ
occurrences t [] = 0
occurrences t (u ∷ us) = one_if (str_eq u t) + occurrences t us

rows_with-cons :
    (t status : String) (m : QueueMessage) (ms : List QueueMessage)
    → rows_with t status (m ∷ ms)
      ≡ one_if (str_eq m.topic t && str_eq m.status status) + rows_with t status ms
rows_with-cons t status m ms = elim (Bool-cases (str_eq m.topic t && str_eq m.status status)) [
  | inl e ↦ rw e (omega arith)
  | inr e ↦ rw e (omega arith)
]

-- A message has one of the four statuses.
one_status :
    (s : String) (b : Bool)
    → (str_eq s "PENDING" || str_eq s "PROCESSING" || str_eq s "COMPLETED" || str_eq s "FAILED")
      ≡ true
    → one_if (b && str_eq s "PENDING")
        + one_if (b && str_eq s "PROCESSING")
        + one_if (b && str_eq s "COMPLETED")
        + one_if (b && str_eq s "FAILED")
      ≡ one_if b
one_status s false h = refl
one_status s true h = elim (Bool-cases (str_eq s "PENDING")) [
  | inl e ↦ rw ((eq_iff s "PENDING").0 e) refl
  | inr e ↦ elim (Bool-cases (str_eq s "PROCESSING")) [
    | inl e' ↦ rw ((eq_iff s "PROCESSING").0 e') refl
    | inr e' ↦ elim (Bool-cases (str_eq s "COMPLETED")) [
      | inl e'' ↦ rw ((eq_iff s "COMPLETED").0 e'') refl
      | inr e'' ↦ ground (arith, e, e', e'')
    ]
  ]
]

of_topic-cons :
    (t : String) (m : QueueMessage) (ms : List QueueMessage)
    → known_status m ≡ true
    → of_topic t (m ∷ ms) ≡ one_if (str_eq m.topic t) + of_topic t ms
of_topic-cons t m ms h = omega (
  arith,
  rows_with-cons t "PENDING" m ms,
  rows_with-cons t "PROCESSING" m ms,
  rows_with-cons t "COMPLETED" m ms,
  rows_with-cons t "FAILED" m ms,
  one_status m.status (str_eq m.topic t) h,
)

-- Messages of the topics of a list.
abbrev pub of_topics : List String → List QueueMessage → ℕ
of_topics [] ms = 0
of_topics (t ∷ ts) ms = of_topic t ms + of_topics ts ms

of_topics-nil : (ts : List String) → of_topics ts [] ≡ 0
of_topics-nil [] = refl
of_topics-nil (t ∷ ts) = omega (arith, of_topics-nil ts)

eq_flip : (a b : String) → str_eq a b ≡ str_eq b a
eq_flip a b = elim (Bool-cases (str_eq a b)) [
  | inl e ↦ rw ((eq_iff a b).0 e) refl
  | inr e ↦ elim (Bool-cases (str_eq b a)) [
    | inl e' ↦ rw ((eq_iff b a).0 e') refl
    | inr e' ↦ e ∙ sym e'
  ]
]

of_topics-cons :
    (ts : List String) (m : QueueMessage) (ms : List QueueMessage)
    → known_status m ≡ true
    → of_topics ts (m ∷ ms) ≡ occurrences m.topic ts + of_topics ts ms
of_topics-cons [] m ms h = omega arith
of_topics-cons (t ∷ ts) m ms h =
    let flip : str_eq m.topic t ≡ str_eq t m.topic = eq_flip m.topic t in
    omega (arith, of_topic-cons t m ms h, ap one_if flip, of_topics-cons ts m ms h)

module _ (precedes : String → String → Bool) where
  of_topics-insert_topic :
      (t : String) (ts : List String) (ms : List QueueMessage)
      → of_topics (insert_topic precedes t ts) ms ≡ of_topic t ms + of_topics ts ms
  of_topics-insert_topic t [] ms = refl
  of_topics-insert_topic t (u ∷ us) ms = elim (Bool-cases (precedes t u)) [
    | inl e ↦ rw e refl
    | inr e ↦ rw e (omega (arith, of_topics-insert_topic t us ms))
  ]

  occurrences-insert_topic :
      (x t : String) (ts : List String)
      → occurrences x (insert_topic precedes t ts) ≡ one_if (str_eq t x) + occurrences x ts
  occurrences-insert_topic x t [] = refl
  occurrences-insert_topic x t (u ∷ us) = elim (Bool-cases (precedes t u)) [
    | inl e ↦ rw e refl
    | inr e ↦ rw e (omega (arith, occurrences-insert_topic x t us))
  ]

  -- Each topic is there once, and only where a message has it.
  occurrences-topics_of :
      (x : String) (ms : List QueueMessage)
      → occurrences x (topics_of precedes ms) ≡ one_if (any (λ n. str_eq n.topic x) ms)
  occurrences-topics_of x [] = refl
  occurrences-topics_of x (m ∷ ms) = elim (Bool-cases (any (λ n. str_eq n.topic m.topic) ms)) [
    | inl e ↦ ground (arith, eq_iff m.topic x, e, occurrences-topics_of x ms)
    | inr e ↦ ground (
      arith,
      eq_iff m.topic x,
      e,
      occurrences-topics_of x ms,
      occurrences-insert_topic x m.topic (topics_of precedes ms),
    )
  ]

of_topic-absent :
    (t : String) (ms : List QueueMessage)
    → all known_status ms ≡ true
    → any (λ n. str_eq n.topic t) ms ≡ false
    → of_topic t ms ≡ 0
of_topic-absent t [] h e = refl
of_topic-absent t (m ∷ ms) h e = ground (arith, of_topic-cons t m ms, of_topic-absent t ms)

module _ (precedes : String → String → Bool) where
  topics_of-rest :
      (m : QueueMessage) (ms : List QueueMessage)
      → all known_status ms ≡ true
      → of_topics (topics_of precedes ms) ms ≡ length ms
      → of_topics (topics_of precedes (m ∷ ms)) ms ≡ length ms
  topics_of-rest m ms known h = elim (Bool-cases (any (λ n. str_eq n.topic m.topic) ms)) [
    | inl e ↦ rw e h
    | inr e ↦ rw e (
        of_topics-insert_topic precedes m.topic (topics_of precedes ms) ms
        ∙ omega (arith, h, of_topic-absent m.topic ms known e))
  ]

  pub of_topics-all :
      (ms : List QueueMessage)
      → all known_status ms ≡ true
      → of_topics (topics_of precedes ms) ms ≡ length ms
  of_topics-all [] h = refl
  of_topics-all (m ∷ ms) h =
      let known : known_status m ≡ true = ground arith in
      let rest : all known_status ms ≡ true = ground arith in
      let once : occurrences m.topic (topics_of precedes (m ∷ ms)) ≡ 1 =
        occurrences-topics_of precedes m.topic (m ∷ ms)
        ∙ ap (λ (b : Bool). one_if (b || any (λ n. str_eq n.topic m.topic) ms)) (eq_refl m.topic) in
      of_topics-cons (topics_of precedes (m ∷ ms)) m ms known
      ∙ omega (arith, once, topics_of-rest m ms rest (of_topics-all ms rest))

  -- The sum is total over the answer.
  pub total-map :
      (ts : List String) (ms : List QueueMessage)
      → total (map metrics_response (map (metrics_of ms) ts)) ≡ of_topics ts ms
  total-map [] ms = refl
  total-map (t ∷ ts) ms = ap (λ (n : ℕ). of_topic t ms + n) (total-map ts ms)

pub All-IsExact :
    (ts : List String) (ms : List QueueMessage)
    → All (IsExact ms) (map metrics_response (map (metrics_of ms) ts))
All-IsExact [] ms = tt
All-IsExact (t ∷ ts) ms = ((refl, refl, refl, refl), All-IsExact ts ms)

entries_of-map :
    (x : String) (ts : List String) (ms : List QueueMessage)
    → entries_of x (map metrics_response (map (metrics_of ms) ts)) ≡ occurrences x ts
entries_of-map x [] ms = refl
entries_of-map x (t ∷ ts) ms = ap (λ (n : ℕ). one_if (str_eq t x) + n) (entries_of-map x ts ms)

-- A topic has one entry where a message has it, and else none.
pub entries_of-topics_of :
    (precedes : String → String → Bool) (x : String) (ms : List QueueMessage)
    → entries_of x (map metrics_response (map (metrics_of ms) (topics_of precedes ms)))
      ≡ (if any (λ m. str_eq m.topic x) ms then 1 else 0)
entries_of-topics_of precedes x ms =
    entries_of-map x (topics_of precedes ms) ms ∙ occurrences-topics_of precedes x ms
