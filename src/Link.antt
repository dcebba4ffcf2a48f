-- ===== src/Link.antt =====
-- The links of a task (internal/model/link.go): the rows of `task_links`, of which the subscribed ones
-- say which events reach the task, and the event that mirrors such a row. A time is the number of
-- its microseconds.
use gritz.Prelude.{ℕ, Bool, Bytes}
use gritz.Event.{LinkPayload}

pub record Link : Type 0 where
  pub id : ℕ
  pub task_id : ℕ
  pub relevance : Bytes
  pub url : Bytes
  pub routing_key : Bytes
  pub title : Bytes
  pub subscribe : Bool
  pub created_at : ℕ

-- The method `EventPayload`.
abbrev pub event_payload : Link → LinkPayload
event_payload l = record {
  link_id = l.id;
  relevance = l.relevance;
  url = l.url;
  title = l.title;
  subscribe = l.subscribe;
}
