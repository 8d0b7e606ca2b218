-- ===== src/Queue.antt =====
-- Infrastructure/src/Persistence/PostgresMessageQueueRepository.cpp over the table `message_queue`
-- (migrations/001). Ids come from a sequence, which no rollback resets.
pub mod Delivery
pub mod Metrics
pub mod UseCases
use cppbackend_api.Base.{
  ℕ, zero, suc, ◌+◌, Bool, true, false, not, ◌&&◌, Option, none, some, List, [], ◌∷◌, ◌++◌, String,
  str_eq, ◌==◌, leb, if◌then◌else◌, to_string, update_where, any, length, select, map,
}
use cppbackend_api.Domain.Entities.{QueueMessage}
use cppbackend_api.Db.{Outcome, commits, refused, rolled_back, committed}

pub record Queue : Type 0 where
  pub messages : List QueueMessage
  pub next_id : ℕ
  pub notified : List (String × String)

abbrev pub published : ℕ → ℕ → String → String → QueueMessage
published id now topic stored = record {
  id = id;
  topic = topic;
  payload = stored;
  status = "PENDING";
  retry_count = 0;
  created_at = now;
  processed_at = none;
}

-- `to_jsonb` is the conversion of the payload, which fails on a text that is not JSON. Id 0 stands
-- for a failure.
unfoldable pub publish_message :
    (String → Option String) → Outcome → ℕ → Queue → String → String → ℕ × Queue
publish_message to_jsonb o now q topic payload = elim (to_jsonb payload) [
  | none ↦ (0, q)
  | some stored ↦ elim o [
    | commits ↦ (
      q.next_id,
      record q {
        messages = q.messages ++ published q.next_id now topic stored ∷ [];
        next_id = suc q.next_id;
        notified = q.notified ++ (topic, to_string q.next_id) ∷ [];
      },
    )
    | refused ↦ (0, q)
    | rolled_back ↦ (0, record q { next_id = suc q.next_id })
  ]
]

-- A row that the subquery may take: `locked` are the rows that other transactions hold.
abbrev pub eligible : (ℕ → Bool) → String → QueueMessage → Bool
eligible locked topic m = str_eq m.topic topic && str_eq m.status "PENDING" && not (locked m.id)

abbrev pub earlier : QueueMessage → Option QueueMessage → QueueMessage
earlier m none = m
earlier m (some other) = if leb m.id other.id then m else other

-- ORDER BY id ASC LIMIT 1.
abbrev pub lowest : (QueueMessage → Bool) → List QueueMessage → Option QueueMessage
lowest p [] = none
lowest p (m ∷ ms) = if p m then some (earlier m (lowest p ms)) else lowest p ms

abbrev pub processing : ℕ → QueueMessage → QueueMessage
processing now m = record m { status = "PROCESSING"; processed_at = some now }

abbrev pub has_message_id : ℕ → QueueMessage → Bool
has_message_id id m = m.id == id

-- The message that is returned has the instant of the poll as that of its creation.
unfoldable pub poll_next : (ℕ → Bool) → Outcome → ℕ → Queue → String → Option QueueMessage × Queue
poll_next locked o now q topic =
    if committed o
    then elim (lowest (eligible locked topic) q.messages) [
      | none ↦ (none, q)
      | some m ↦ (
        some (record (processing now m) { created_at = now }),
        record q { messages = update_where (has_message_id m.id) (processing now) q.messages },
      )
    ]
    else (none, q)

abbrev pub completed_message : ℕ → QueueMessage → QueueMessage
completed_message now m = record m { status = "COMPLETED"; processed_at = some now }

unfoldable pub acknowledge_message : Outcome → ℕ → Queue → ℕ → Bool × Queue
acknowledge_message o now q id =
    if committed o
    then (
      any (has_message_id id) q.messages,
      record q { messages = update_where (has_message_id id) (completed_message now) q.messages },
    )
    else (false, q)

abbrev pub failed_message : QueueMessage → QueueMessage
failed_message m = record m { status = "FAILED"; retry_count = suc m.retry_count }

unfoldable pub fail_message : Outcome → Queue → ℕ → Bool × Queue
fail_message o q id =
    if committed o
    then (
      any (has_message_id id) q.messages,
      record q { messages = update_where (has_message_id id) failed_message q.messages },
    )
    else (false, q)

pub record QueueMetrics : Type 0 where
  pub topic : String
  pub pending_count : ℕ
  pub processing_count : ℕ
  pub completed_count : ℕ
  pub failed_count : ℕ

-- The rows of one group that a FILTER clause counts.
abbrev pub rows_with : String → String → List QueueMessage → ℕ
rows_with topic status ms = length (select (λ m. str_eq m.topic topic && str_eq m.status status) ms)

abbrev pub metrics_of : List QueueMessage → String → QueueMetrics
metrics_of ms topic = record {
  topic = topic;
  pending_count = rows_with topic "PENDING" ms;
  processing_count = rows_with topic "PROCESSING" ms;
  completed_count = rows_with topic "COMPLETED" ms;
  failed_count = rows_with topic "FAILED" ms;
}

-- ORDER BY topic ASC: `precedes` is the collation of the database.
abbrev pub insert_topic : (String → String → Bool) → String → List String → List String
insert_topic precedes t [] = t ∷ []
insert_topic precedes t (u ∷ us) =
    if precedes t u then t ∷ u ∷ us else u ∷ insert_topic precedes t us

-- GROUP BY topic.
abbrev pub topics_of : (String → String → Bool) → List QueueMessage → List String
topics_of precedes [] = []
topics_of precedes (m ∷ ms) =
    if any (λ n. str_eq n.topic m.topic) ms
    then topics_of precedes ms
    else insert_topic precedes m.topic (topics_of precedes ms)

unfoldable pub get_metrics : (String → String → Bool) → Outcome → Queue → List QueueMetrics
get_metrics precedes o q = elim o [
  | refused ↦ []
  | _ ↦ map (metrics_of q.messages) (topics_of precedes q.messages)
]
