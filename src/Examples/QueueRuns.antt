-- ===== src/Examples/QueueRuns.antt =====
-- Runs of the message queue.
use cppbackend_api.Base.{
  ℕ, ◌≡◌, ◌≢◌, refl, Bool, true, false, Option, some, [], ◌∷◌, All, any, str_eq, if◌then◌else◌,
  String, List, length,
}
use cppbackend_api.Domain.Entities.{QueueMessage}
use cppbackend_api.Db.{commits}
use cppbackend_api.Queue.{
  Queue, published, publish_message, processing, poll_next, acknowledge_message,
}
use cppbackend_api.Queue.UseCases.{metrics}
use cppbackend_api.Queue.Metrics.{total, IsExact, entries_of}
use cppbackend_api.Queue.Metrics.Runs.{
  Request, publishes, polls, acknowledges, fails, run_queue, empty_queue, listed_metrics,
  metrics_count,
}
use cppbackend_api.Db.{Outcome, refused, rolled_back}
use cppbackend_api.Queue.Delivery.{poll_next_once, publish_then_poll}
use cppbackend_api.Queue.UseCases.{PublishMessageRequest}

-- Every text counts as JSON here, and no row is held elsewhere.
abbrev to_jsonb : String → Option String
to_jsonb payload = some payload

abbrev unlocked : ℕ → Bool
unlocked id = false

abbrev row : QueueMessage
row = published 1 10 "mail" "{}"

abbrev q : Queue
q = record {
  messages = row ∷ published 2 20 "mail" "[]" ∷ published 3 30 "log" "1" ∷ [];
  next_id = 4;
  notified = [];
}

abbrev q' : Queue
q' = (poll_next unlocked commits 50 q "mail").1

abbrev m : QueueMessage
m = record (processing 50 row) { created_at = 50 }

polled : poll_next unlocked commits 50 q "mail" ≡ (some m, q')
unfolding poll_next
polled = refl

abbrev m2 : QueueMessage
m2 = record (processing 60 (published 2 20 "mail" "[]")) { created_at = 60 }

polled_again :
    poll_next unlocked commits 60 q' "mail" ≡ (some m2, (poll_next unlocked commits 60 q' "mail").1)
unfolding poll_next
polled_again = refl

poll_next_once_example : m2.id ≢ m.id
poll_next_once_example =
    poll_next_once unlocked unlocked commits commits 50 60 q q'
      (poll_next unlocked commits 60 q' "mail").1 "mail" "mail" m m2 polled polled_again

abbrev after_ack : Queue
after_ack = (acknowledge_message commits 40 q 1).1

polled_after_ack :
    poll_next unlocked commits 60 after_ack "mail"
    ≡ (some m2, (poll_next unlocked commits 60 after_ack "mail").1)
unfolding poll_next acknowledge_message
polled_after_ack = refl

publish_then_poll_example :
    let sent = publish_message to_jsonb commits 50 q "news" "{}" in
    (poll_next unlocked commits 60 sent.1 "news").0
    ≡ some (record {
      id = sent.0;
      topic = "news";
      payload = "{}";
      status = "PROCESSING";
      retry_count = 0;
      created_at = 60;
      processed_at = some 60;
    })
publish_then_poll_example =
    publish_then_poll to_jsonb unlocked 50 60 q "news" "{}" "{}" refl refl refl

abbrev req : PublishMessageRequest
req = record { topic = "news"; payload = "{}" }

-- Two topics; one message is polled, and a publication is undone.
abbrev requests : List (Outcome × ℕ × Request)
requests =
    (commits, 10, publishes "mail" "{}")
    ∷ (commits, 11, publishes "log" "1")
    ∷ (rolled_back, 12, publishes "log" "2")
    ∷ (commits, 13, publishes "mail" "[]")
    ∷ (commits, 14, polls unlocked "mail")
    ∷ (refused, 15, acknowledges 1)
    ∷ (commits, 16, fails 2)
    ∷ []

-- The topics are in no particular order here.
abbrev any_order : String → String → Bool
any_order t u = true

metrics_count_example :
    let ms = (run_queue to_jsonb requests empty_queue).messages in
    let answer =
      listed_metrics (metrics any_order commits 20 (run_queue to_jsonb requests empty_queue)) in
    All (IsExact ms) answer
    × ((topic : String)
        → entries_of topic answer ≡ (if any (λ m. str_eq m.topic topic) ms then 1 else 0))
    × (total answer ≡ length ms)
metrics_count_example = metrics_count to_jsonb any_order 20 requests
