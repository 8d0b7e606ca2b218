-- ===== src/Queue/Delivery.antt =====
-- Which message a poll hands out, and that none is handed out twice.
use cppbackend_api.Base.{
  ℕ, ◌≡◌, ◌≢◌, ◌⊎◌, refl, sym, ap, ◌∙◌, Bool, true, false, not, ◌&&◌, inl, inr, Option, some, List,
  [], ◌∷◌, ◌++◌, String, str_eq, eq_refl, if◌then◌else◌, arith, ◌==◌, leb, update_where, any,
  Bool-cases, Option-cases,
}
use cppbackend_api.Domain.Entities.{QueueMessage}
use cppbackend_api.Db.{Outcome, commits, refused, rolled_back}
use cppbackend_api.Queue.{
  Queue, published, publish_message, eligible, lowest, processing, has_message_id, poll_next,
  completed_message, acknowledge_message, failed_message, fail_message,
}

abbrev pub no_earlier : (QueueMessage → Bool) → ℕ → List QueueMessage → Bool
no_earlier p id [] = true
no_earlier p id (x ∷ ms) = (if p x then leb id x.id else true) && no_earlier p id ms

poll_next-found :
    (locked : ℕ → Bool) (o : Outcome) (now : ℕ) (q q' : Queue) (topic : String) (m : QueueMessage)
    → poll_next locked o now q topic ≡ (some m, q')
    → (row : QueueMessage) × (o ≡ commits)
      × (lowest (eligible locked topic) q.messages ≡ some row)
      × (m ≡ record (processing now row) { created_at = now })
      × (q'.messages ≡ update_where (has_message_id row.id) (processing now) q.messages)
unfolding poll_next
poll_next-found locked commits now q q' topic m h =
    elim (Option-cases (lowest (eligible locked topic) q.messages)) [
      | inl e ↦ absurd (ground arith)
      | inr (row, e) ↦ (row, refl, e, ground arith, ground arith)
    ]
poll_next-found locked refused now q q' topic m h = absurd (ground arith)
poll_next-found locked rolled_back now q q' topic m h = absurd (ground arith)

-- A row that waits under a topic and that nobody holds.
abbrev pub waits : (ℕ → Bool) → String → QueueMessage → Bool
waits locked topic m = str_eq m.topic topic && str_eq m.status "PENDING" && not (locked m.id)

-- Rows of an id that was set to another status than "PENDING" are not eligible.
module _ (locked : ℕ → Bool) (topic : String) (id : ℕ) (f : QueueMessage → QueueMessage)
    (settled : (m : QueueMessage) → str_eq (f m).status "PENDING" ≡ false) where
  lowest-settled :
      (ms : List QueueMessage) (m : QueueMessage)
      → lowest (eligible locked topic) (update_where (has_message_id id) f ms) ≡ some m
      → (m.id == id) ≡ false
  lowest-settled [] m h = absurd (ground arith)
  lowest-settled (x ∷ ms) m h = elim (Bool-cases (x.id == id)) [
    | inl hit ↦ ground (arith, hit, settled x, lowest-settled ms m)
    | inr other ↦
        elim (Option-cases
          (lowest (eligible locked topic) (update_where (has_message_id id) f ms))) [
            | inl e ↦ ground (arith, e, other)
            | inr (y, e) ↦ ground (arith, e, other, lowest-settled ms y e)
          ]
  ]

poll_next-ne-settled :
    (locked : ℕ → Bool) (o : Outcome) (now : ℕ) (q q' : Queue) (topic : String) (m : QueueMessage)
    (id : ℕ) (f : QueueMessage → QueueMessage) (ms : List QueueMessage)
    → ((x : QueueMessage) → str_eq (f x).status "PENDING" ≡ false)
    → q.messages ≡ update_where (has_message_id id) f ms
    → poll_next locked o now q topic ≡ (some m, q')
    → m.id ≢ id
poll_next-ne-settled locked o now q q' topic m id f ms settled stored h same =
    let (row, _, found, handed, _) = poll_next-found locked o now q q' topic m h in
    let other : (row.id == id) ≡ false =
      lowest-settled locked topic id f settled ms row
        (ap (lowest (eligible locked topic)) (sym stored) ∙ found) in
    ground (arith, handed, same)

-- No message is handed out twice: after a poll that handed one out, no later poll, of any topic and
-- whatever rows are locked, hands out a message of its id from the queue as the first left it.
pub poll_next_once :
    (locked locked2 : ℕ → Bool) (o o2 : Outcome) (now later : ℕ) (q q' q'' : Queue)
    (topic topic2 : String) (m m2 : QueueMessage)
    → poll_next locked o now q topic ≡ (some m, q')
    → poll_next locked2 o2 later q' topic2 ≡ (some m2, q'')
    → m2.id ≢ m.id
poll_next_once locked locked2 o o2 now later q q' q'' topic topic2 m m2 h h2 same =
    let (row, _, found, handed, stored) = poll_next-found locked o now q q' topic m h in
    poll_next-ne-settled locked2 o2 later q' q'' topic2 m2 row.id (processing now) q.messages
      (λ x. refl) stored h2 (same ∙ ap (λ (x : QueueMessage). x.id) handed)

-- Nor is one that was acknowledged or that failed: where that committed, no later poll hands out a
-- message of its id. In particular nothing puts a failed message back.
pub settled-never_polled :
    (locked : ℕ → Bool) (o : Outcome) (now later : ℕ) (q q' : Queue) (topic : String) (id : ℕ)
    (m : QueueMessage)
    → ((poll_next locked o later (acknowledge_message commits now q id).1 topic ≡ (some m, q'))
        ⊎ (poll_next locked o later (fail_message commits q id).1 topic ≡ (some m, q')))
    → m.id ≢ id
unfolding acknowledge_message fail_message
settled-never_polled locked o now later q q' topic id m (inl h) =
    poll_next-ne-settled locked o later _ q' topic m id (completed_message now) q.messages
      (λ x. refl) refl h
settled-never_polled locked o now later q q' topic id m (inr h) =
    poll_next-ne-settled locked o later _ q' topic m id failed_message q.messages (λ x. refl) refl h

poll_next-some :
    (locked : ℕ → Bool) (now : ℕ) (q : Queue) (topic : String) (row : QueueMessage)
    → lowest (eligible locked topic) q.messages ≡ some row
    → (poll_next locked commits now q topic).0
      ≡ some (record (processing now row) { created_at = now })
unfolding poll_next
poll_next-some locked now q topic row h = rw (h, poll_next)

lowest-appended :
    (p : QueueMessage → Bool) (ms : List QueueMessage) (x : QueueMessage)
    → any p ms ≡ false
    → p x ≡ true
    → lowest p (ms ++ x ∷ []) ≡ some x
lowest-appended p [] x h e = ground arith
lowest-appended p (y ∷ ms) x h e = ground (arith, lowest-appended p ms x)

publish_message-commits :
    (to_jsonb : String → Option String) (now : ℕ) (q : Queue) (topic payload stored : String)
    → to_jsonb payload ≡ some stored
    → ((publish_message to_jsonb commits now q topic payload).0 ≡ q.next_id)
      × ((publish_message to_jsonb commits now q topic payload).1.messages
          ≡ q.messages ++ published q.next_id now topic stored ∷ [])
unfolding publish_message
publish_message-commits to_jsonb now q topic payload stored json = ground (arith, json)

-- A message that was published to a topic without eligible messages is the one that the next poll
-- of it hands out, with the id that the publication answered and the payload as it is stored: where
-- both commit, the payload is JSON and the new row is not locked.
pub publish_then_poll :
    (to_jsonb : String → Option String) (locked : ℕ → Bool) (now later : ℕ) (q : Queue)
    (topic payload stored : String)
    → to_jsonb payload ≡ some stored
    → any (eligible locked topic) q.messages ≡ false
    → locked q.next_id ≡ false
    → let sent = publish_message to_jsonb commits now q topic payload in
      (poll_next locked commits later sent.1 topic).0
      ≡ some (record {
        id = sent.0;
        topic = topic;
        payload = stored;
        status = "PROCESSING";
        retry_count = 0;
        created_at = later;
        processed_at = some later;
      })
publish_then_poll to_jsonb locked now later q topic payload stored json empty free =
    let (answer, appended) = publish_message-commits to_jsonb now q topic payload stored json in
    let row : QueueMessage = published q.next_id now topic stored in
    let pending : eligible locked topic row ≡ true = ground (arith, eq_refl topic, free) in
    rw answer (
      poll_next-some locked later _ topic row (
        ap (lowest (eligible locked topic)) appended
        ∙ lowest-appended (eligible locked topic) q.messages row empty pending))
