-- ===== src/Queue/UseCases/Replies.antt =====
-- What the queue's use cases answer.
use cppbackend_api.Base.{
  ℕ, ◌≡◌, ◌⊎◌, refl, ap, false, inl, inr, Option, none, List, [], ◌∷◌, String, if◌then◌else◌,
  is_empty, arith, ◌==◌, update_where, any, Option-cases,
}
use cppbackend_api.Domain.Result.{ok, respond, is_ok}
use cppbackend_api.Domain.Entities.{QueueMessage}
use cppbackend_api.Db.{Outcome, commits, committed}
use cppbackend_api.Queue.{
  Queue, publish_message, has_message_id, completed_message, acknowledge_message,
}
use cppbackend_api.Queue.UseCases.{
  PublishMessageRequest, pending_response, published_message, publish, acknowledge,
}

publish-given :
    (to_jsonb : String → Option String) (o : Outcome) (now : ℕ) (q : Queue)
    (req : PublishMessageRequest)
    → is_empty req.topic ≡ false
    → is_empty req.payload ≡ false
    → let sent = publish_message to_jsonb o now q req.topic req.payload in
      publish to_jsonb o now q req ≡ (
        ok (respond (pending_response sent.0 now req) (published_message req.topic sent.0) 201 now),
        sent.1,
      )
unfolding publish
publish-given to_jsonb o now q req topic payload = rw (topic, payload, publish)

publish_message-fails :
    (to_jsonb : String → Option String) (o : Outcome) (now : ℕ) (q : Queue) (topic payload : String)
    → (to_jsonb payload ≡ none) ⊎ (committed o ≡ false)
    → ((publish_message to_jsonb o now q topic payload).0 ≡ 0)
      × ((publish_message to_jsonb o now q topic payload).1.messages ≡ q.messages)
unfolding publish_message
publish_message-fails to_jsonb o now q topic payload h = elim (Option-cases (to_jsonb payload)) [
  | inl e ↦ ground (arith, e)
  | inr (stored, e) ↦ ground (arith, e)
]

-- A publication whose topic and payload are given is answered as created also where nothing was
-- stored, because the payload is no JSON or the statement did not commit: with the id 0 and the
-- messages as before.
pub publish-unchecked :
    (to_jsonb : String → Option String) (o : Outcome) (now : ℕ) (q : Queue)
    (req : PublishMessageRequest)
    → is_empty req.topic ≡ false
    → is_empty req.payload ≡ false
    → (to_jsonb req.payload ≡ none) ⊎ (committed o ≡ false)
    → ((publish to_jsonb o now q req).0
        ≡ ok (respond (pending_response 0 now req) (published_message req.topic 0) 201 now))
      × ((publish to_jsonb o now q req).1.messages ≡ q.messages)
publish-unchecked to_jsonb o now q req topic payload failing =
    let (zero_id, same) = publish_message-fails to_jsonb o now q req.topic req.payload failing in
    rw (publish-given to_jsonb o now q req topic payload) (
      ap
          (λ (n : ℕ).
            ok (respond (pending_response n now req) (published_message req.topic n) 201 now))
          zero_id,
      same,
    )

any-updated :
    (id now : ℕ) (ms : List QueueMessage)
    → any (has_message_id id) (update_where (has_message_id id) (completed_message now) ms)
      ≡ any (has_message_id id) ms
any-updated id now [] = refl
any-updated id now (m ∷ ms) = ground (arith, any-updated id now ms)

acknowledge-is_ok :
    (now : ℕ) (q : Queue) (id : ℕ)
    → (is_ok (acknowledge commits now q id).0
        ≡ (if id == 0 then false else any (has_message_id id) q.messages))
      × ((acknowledge commits now q id).1.messages ≡ (
          if id == 0
          then q.messages
          else update_where (has_message_id id) (completed_message now) q.messages))
unfolding acknowledge acknowledge_message
acknowledge-is_ok now q id = ground arith

-- A second acknowledgement of a message succeeds like the first: where both commit, the two answers
-- are successes or errors together. The status of the message is not looked at.
pub acknowledge-again :
    (now later : ℕ) (q : Queue) (id : ℕ)
    → is_ok (acknowledge commits later (acknowledge commits now q id).1 id).0
      ≡ is_ok (acknowledge commits now q id).0
acknowledge-again now later q id =
    let (first, stored) = acknowledge-is_ok now q id in
    let (second, _) = acknowledge-is_ok later (acknowledge commits now q id).1 id in
    ground (arith, first, stored, second, any-updated id now q.messages)
