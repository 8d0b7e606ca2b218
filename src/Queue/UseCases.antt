-- ===== src/Queue/UseCases.antt =====
-- Application/src/UseCases/QueueUseCases.cpp. An instant stands for its ISO
-- text.
pub mod Replies
use cppbackend_api.Base.{
  ℕ, Bool, true, false, Option, none, some, String, append, to_string, ◌==◌, if◌then◌else◌,
  is_empty, List, map,
}
use cppbackend_api.Domain.Result.{
  Result, ok, err, DomainError, fail_with, ApiResponse, respond, respond_void,
}
use cppbackend_api.Domain.Entities.{QueueMessage}
use cppbackend_api.Db.{Outcome}
use cppbackend_api.Queue.{
  Queue, QueueMetrics, publish_message, poll_next, acknowledge_message, fail_message, get_metrics,
}

pub record PublishMessageRequest : Type 0 where
  pub topic : String
  pub payload : String

pub record QueueMessageResponse : Type 0 where
  pub id : ℕ
  pub topic : String
  pub payload : String
  pub status : String
  pub retry_count : ℕ
  pub created_at : ℕ
  pub processed_at : Option ℕ

-- QueueMessageResponse::fromDomain.
abbrev pub queue_message_response : QueueMessage → QueueMessageResponse
queue_message_response m = record {
  id = m.id;
  topic = m.topic;
  payload = m.payload;
  status = m.status;
  retry_count = m.retry_count;
  created_at = m.created_at;
  processed_at = m.processed_at;
}

abbrev pub pending_response : ℕ → ℕ → PublishMessageRequest → QueueMessageResponse
pending_response id now req = record {
  id = id;
  topic = req.topic;
  payload = req.payload;
  status = "PENDING";
  retry_count = 0;
  created_at = now;
  processed_at = none;
}

abbrev pub published_message : String → ℕ → String
published_message topic id =
    append "Message published to topic '" (append topic (append "' with ID " (to_string id)))

unfoldable pub publish :
    (String → Option String)
    → Outcome
    → ℕ
    → Queue
    → PublishMessageRequest
    → Result (ApiResponse QueueMessageResponse) × Queue
publish to_jsonb o now q req =
    if is_empty req.topic
    then (
      err (
          fail_with 400 "Validation failed for queue publish"
            "Field 'topic' is required and cannot be empty."),
      q,
    )
    else if is_empty req.payload
    then (
      err (
          fail_with 400 "Validation failed for queue publish"
            "Field 'payload' is required and cannot be empty."),
      q,
    )
    else let sent = publish_message to_jsonb o now q req.topic req.payload in
      (
        ok (respond (pending_response sent.0 now req) (published_message req.topic sent.0) 201 now),
        sent.1,
      )

abbrev pub nothing_pending : String → DomainError
nothing_pending topic =
    fail_with 404 (append "No pending messages in topic '" (append topic "'"))
      (append "Queue topic '" (append topic "' is empty or all messages are locked."))

unfoldable pub poll :
    (ℕ → Bool) → Outcome → ℕ → Queue → String → Result (ApiResponse QueueMessageResponse) × Queue
poll locked o now q topic =
    if is_empty topic
    then (err (fail_with 400 "Validation failed for queue poll" "Field 'topic' is required."), q)
    else let polled = poll_next locked o now q topic in
      elim polled.0 [
        | none ↦ (err (nothing_pending topic), polled.1)
        | some m ↦ (
          ok (
              respond (queue_message_response m)
                (append "Message "
                  (append (to_string m.id) " locked and retrieved via FOR UPDATE SKIP LOCKED"))
                200 now),
          polled.1,
        )
      ]

abbrev pub invalid_id : DomainError
invalid_id = fail_with 400 "Invalid message ID" "ID must be a positive non-zero integer."

unfoldable pub acknowledge : Outcome → ℕ → Queue → ℕ → Result (ApiResponse (Unit {0})) × Queue
acknowledge o now q id =
    if id == 0
    then (err invalid_id, q)
    else let acked = acknowledge_message o now q id in
      if acked.0
      then (
        ok (
            respond_void (append "Message " (append (to_string id) " acknowledged (COMPLETED)")) 200
              now),
        acked.1,
      )
      else (
        err (
            fail_with 404
              (append "Message " (append (to_string id) " not found or already acknowledged"))
              (append "Cannot acknowledge message ID: " (to_string id))),
        acked.1,
      )

unfoldable pub fail : Outcome → ℕ → Queue → ℕ → Result (ApiResponse (Unit {0})) × Queue
fail o now q id =
    if id == 0
    then (err invalid_id, q)
    else let failed = fail_message o q id in
      if failed.0
      then (
        ok (respond_void (append "Message " (append (to_string id) " marked as FAILED")) 200 now),
        failed.1,
      )
      else (
        err (
            fail_with 404 (append "Message " (append (to_string id) " not found"))
              (append "Cannot fail message ID: " (to_string id))),
        failed.1,
      )

pub record QueueMetricsResponse : Type 0 where
  pub topic : String
  pub pending : ℕ
  pub processing : ℕ
  pub completed : ℕ
  pub failed : ℕ

-- QueueMetricsResponse::fromDomain.
abbrev pub metrics_response : QueueMetrics → QueueMetricsResponse
metrics_response m = record {
  topic = m.topic;
  pending = m.pending_count;
  processing = m.processing_count;
  completed = m.completed_count;
  failed = m.failed_count;
}

unfoldable pub metrics :
    (String → String → Bool) → Outcome → ℕ → Queue → ApiResponse (List QueueMetricsResponse)
metrics precedes o now q =
    respond (map metrics_response (get_metrics precedes o q)) "Queue metrics retrieved successfully"
      200 now
