-- ===== src/Queue/Metrics/Runs.antt =====
-- Runs of the queue: the statuses that its operations write, and what the metrics count after them.
use cppbackend_api.Base.{
  ℕ, ◌≡◌, refl, ◌∙◌, Bool, true, inl, inr, Option, none, some, List, [], ◌∷◌, ◌++◌, String, arith,
  all, All, any, str_eq, if◌then◌else◌, length, update_where, Bool-cases, Option-cases,
}
use cppbackend_api.Domain.Result.{ApiResponse}
use cppbackend_api.Domain.Entities.{QueueMessage}
use cppbackend_api.Db.{Outcome, commits, refused, rolled_back}
use cppbackend_api.Queue.{
  Queue, published, publish_message, eligible, lowest, processing, has_message_id, poll_next,
  completed_message, acknowledge_message, failed_message, fail_message, get_metrics, topics_of,
}
use cppbackend_api.Queue.UseCases.{QueueMetricsResponse, metrics}
use cppbackend_api.Queue.Metrics.{
  known_status, total, total-map, of_topics-all, IsExact, entries_of, All-IsExact,
  entries_of-topics_of,
}

-- What a client does, with the rows that others lock during a poll.
pub data Request : Type 0 where
  publishes : String → String → Request
  polls : (ℕ → Bool) → String → Request
  acknowledges fails : ℕ → Request

module _ (to_jsonb : String → Option String) where
  abbrev pub after : Outcome → ℕ → Request → Queue → Queue
  after o now (publishes topic payload) q = (publish_message to_jsonb o now q topic payload).1
  after o now (polls locked topic) q = (poll_next locked o now q topic).1
  after o now (acknowledges id) q = (acknowledge_message o now q id).1
  after o now (fails id) q = (fail_message o q id).1

  -- Each request has an instant and an outcome of its own.
  abbrev pub run_queue : List (Outcome × ℕ × Request) → Queue → Queue
  run_queue [] q = q
  run_queue ((o, now, request) ∷ requests) q = run_queue requests (after o now request q)

all-append :
    (ms : List QueueMessage) (m : QueueMessage)
    → all known_status ms ≡ true
    → known_status m ≡ true
    → all known_status (ms ++ m ∷ []) ≡ true
all-append [] m h k = rw k refl
all-append (x ∷ ms) m h k = ground (arith, all-append ms m)

all-update_where :
    (p : QueueMessage → Bool) (f : QueueMessage → QueueMessage) (ms : List QueueMessage)
    → ((m : QueueMessage) → known_status (f m) ≡ true)
    → all known_status ms ≡ true
    → all known_status (update_where p f ms) ≡ true
all-update_where p f [] h k = refl
all-update_where p f (x ∷ ms) h k = elim (Bool-cases (p x)) [
  | inl e ↦ ground (arith, e, h x, all-update_where p f ms h)
  | inr e ↦ ground (arith, e, all-update_where p f ms h)
]

module _ (to_jsonb : String → Option String) where
  publish_message-known :
      (o : Outcome) (now : ℕ) (q : Queue) (topic payload : String)
      → all known_status q.messages ≡ true
      → all known_status (publish_message to_jsonb o now q topic payload).1.messages ≡ true
  unfolding publish_message
  publish_message-known refused now q topic payload h = elim (Option-cases (to_jsonb payload)) [
    | inl e ↦ rw (e, all) h
    | inr (stored, e) ↦ rw (e, all) h
  ]
  publish_message-known rolled_back now q topic payload h = elim (Option-cases (to_jsonb payload)) [
    | inl e ↦ rw (e, all) h
    | inr (stored, e) ↦ rw (e, all) h
  ]
  publish_message-known commits now q topic payload h = elim (Option-cases (to_jsonb payload)) [
    | inl e ↦ rw (e, all) h
    | inr (stored, e) ↦
        rw (e, all) (all-append q.messages (published q.next_id now topic stored) h refl)
  ]

poll_next-known :
    (locked : ℕ → Bool) (o : Outcome) (now : ℕ) (q : Queue) (topic : String)
    → all known_status q.messages ≡ true
    → all known_status (poll_next locked o now q topic).1.messages ≡ true
unfolding poll_next
poll_next-known locked refused now q topic h = h
poll_next-known locked rolled_back now q topic h = h
poll_next-known locked commits now q topic h =
    elim (Option-cases (lowest (eligible locked topic) q.messages)) [
      | inl e ↦ rw e h
      | inr (m, e) ↦
          rw e (all-update_where (has_message_id m.id) (processing now) q.messages (λ n. refl) h)
    ]

acknowledge_message-known :
    (o : Outcome) (now : ℕ) (q : Queue) (id : ℕ)
    → all known_status q.messages ≡ true
    → all known_status (acknowledge_message o now q id).1.messages ≡ true
unfolding acknowledge_message
acknowledge_message-known refused now q id h = h
acknowledge_message-known rolled_back now q id h = h
acknowledge_message-known commits now q id h =
    all-update_where (has_message_id id) (completed_message now) q.messages (λ n. refl) h

fail_message-known :
    (o : Outcome) (q : Queue) (id : ℕ)
    → all known_status q.messages ≡ true
    → all known_status (fail_message o q id).1.messages ≡ true
unfolding fail_message
fail_message-known refused q id h = h
fail_message-known rolled_back q id h = h
fail_message-known commits q id h =
    all-update_where (has_message_id id) failed_message q.messages (λ n. refl) h

abbrev pub empty_queue : Queue
empty_queue = record { messages = []; next_id = 1; notified = [] }

-- The list of an answer.
abbrev pub listed_metrics : ApiResponse (List QueueMetricsResponse) → List QueueMetricsResponse
listed_metrics r = elim r.payload [ none ↦ [] | some ms ↦ ms ]

module _ (to_jsonb : String → Option String) where
  after-known :
      (o : Outcome) (now : ℕ) (request : Request) (q : Queue)
      → all known_status q.messages ≡ true
      → all known_status (after to_jsonb o now request q).messages ≡ true
  after-known o now (publishes topic payload) q h =
      publish_message-known to_jsonb o now q topic payload h
  after-known o now (polls locked topic) q h = poll_next-known locked o now q topic h
  after-known o now (acknowledges id) q h = acknowledge_message-known o now q id h
  after-known o now (fails id) q h = fail_message-known o q id h

  run_queue-known :
      (requests : List (Outcome × ℕ × Request)) (q : Queue)
      → all known_status q.messages ≡ true
      → all known_status (run_queue to_jsonb requests q).messages ≡ true
  run_queue-known [] q h = h
  run_queue-known ((o, now, request) ∷ requests) q h =
      run_queue-known requests (after to_jsonb o now request q) (after-known o now request q h)

  -- Whatever was published, polled, acknowledged and failed since the table was empty, with any
  -- outcomes: where the query of the metrics commits, each entry has the numbers of the messages of
  -- its topic that are pending, processing, completed and failed; each topic that a message has has
  -- one entry, and no other topic has one; and all numbers together are that of the messages in the
  -- table, so that no message has another status.
  pub metrics_count :
      (precedes : String → String → Bool) (now : ℕ) (requests : List (Outcome × ℕ × Request))
      → let ms = (run_queue to_jsonb requests empty_queue).messages in
        let answer =
          listed_metrics (metrics precedes commits now (run_queue to_jsonb requests empty_queue)) in
        All (IsExact ms) answer
        × ((topic : String)
            → entries_of topic answer ≡ (if any (λ m. str_eq m.topic topic) ms then 1 else 0))
        × (total answer ≡ length ms)
  unfolding metrics get_metrics
  metrics_count precedes now requests =
      let ms = (run_queue to_jsonb requests empty_queue).messages in
      (
        All-IsExact (topics_of precedes ms) ms,
        λ topic. entries_of-topics_of precedes topic ms,
        total-map precedes (topics_of precedes ms) ms
            ∙ of_topics-all precedes ms (run_queue-known requests empty_queue refl),
      )
