-- ===== src/Event.antt =====
-- The events of a task's stream (internal/model/event.go) and the lifecycle event that a runner
-- event leaves there (`RunnerEvent.LifecycleEvent` of internal/model/task.go). `CreatedAt` and the
-- serial id are the database's and are left out.
use gritz.Prelude.{
  ℕ, Bool, false, Option, none, some, List, [], Bytes, codes, length, ◌==◌, if◌then◌else◌,
}
use gritz.Task.{
  Task, TaskStatus, RunnerEvent, RunnerEventType, started, stopped, failure, other, label,
}

pub data LifecycleKind : Type 0 where
  created updated task_cancelled restarted task_archived unarchived auto_archived : LifecycleKind
  sandbox_started sandbox_exited sandbox_failed : LifecycleKind

pub data Actor : Type 0 where
  user_actor : Bytes → Actor
  runner_actor router_actor schedule_actor : Actor

pub record LifecyclePayload : Type 0 where
  pub kind : LifecycleKind
  pub actor : Actor
  pub from_status : Bytes
  pub to_status : Bytes
  pub message : Bytes
  pub fields : List Bytes

-- `Details` is a map; here the list of its entries.
pub record ExternalPayload : Type 0 where
  pub description : Bytes
  pub url : Bytes
  pub data_text : Bytes
  pub details : List (Bytes × Bytes)
  pub source : Bytes
  pub event_type : Bytes

pub record LinkPayload : Type 0 where
  pub link_id : ℕ
  pub relevance : Bytes
  pub url : Bytes
  pub title : Bytes
  pub subscribe : Bool

pub data EventPayload : Type 0 where
  lifecycle : LifecyclePayload → EventPayload
  instruction : Bytes → Bytes → EventPayload
  external : ExternalPayload → EventPayload
  link : LinkPayload → EventPayload

pub record Event : Type 0 where
  pub task_id : ℕ
  pub org_id : ℕ
  pub wake : Bool
  pub payload : EventPayload

-- `cmp.Or` on strings: the first that is not empty.
abbrev pub or_text : Bytes → Bytes → Bytes
or_text a b = if length a == 0 then b else a

sandbox_event : LifecycleKind → Bytes → Task → TaskStatus → Event
sandbox_event kind message task from = record {
  task_id = task.id;
  org_id = task.org_id;
  wake = false;
  payload = lifecycle (record {
    kind = kind;
    actor = runner_actor;
    from_status = label from;
    to_status = label task.status;
    message = message;
    fields = [];
  });
}

lifecycle_event_of : RunnerEventType → Bytes → Task → TaskStatus → Option Event
unfolding sandbox_event
lifecycle_event_of started reason task from = some (sandbox_event sandbox_started [] task from)
lifecycle_event_of stopped reason task from = some (sandbox_event sandbox_exited [] task from)
lifecycle_event_of failure reason task from =
    some (sandbox_event sandbox_failed (or_text reason (codes "container failed")) task from)
lifecycle_event_of (other _) reason task from = none

-- `task` is the task after the event, `from` its status before.
unfoldable pub lifecycle_event : RunnerEvent → Task → TaskStatus → Option Event
unfolding lifecycle_event_of
lifecycle_event e task from = lifecycle_event_of e.event e.reason task from
