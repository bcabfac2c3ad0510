-- ===== src/Events/Examples.antt =====
-- Runs of the subscriber over a stream of three events.
use Prim.Native.Nat.{◌*◌}
use mathlib.Core.Path.{subst}
use ai_engineering_os.Events.Listener.Backlog.{backlog}
use ai_engineering_os.Events.Listener.Drain.{drain-Delivers}
use ai_engineering_os.Events.Listener.Quiet.{drain-Drains, drain-Passes}
use ai_engineering_os.Events.Listener.Opening.{start-at_end}
use ai_engineering_os.Base.{
  List, [], any, arith, filter, insert_sorted, length, no_duplicates, no_duplicates-IsApart, none,
  ok, refl, some, sorted, ℕ, ◌++◌, ◌+◌, ◌<◌, ◌∷◌, ◌≡◌, ◌≤◌,
}
use ai_engineering_os.Domain.Event.{EventType, OsEvent}
use ai_engineering_os.Domain.Enums.{
  SystemActor, system, actor_role_enum, capability_type_enum, evidence_type_enum,
  feature_status_enum, initiator_enum, plan_status_enum, qa_status_enum, review_outcome_enum,
  task_status_enum, work_package_status_enum,
}
use ai_engineering_os.Storage.Stream.{is_after, latest_sequence_number, list_since, sequence_of}
use ai_engineering_os.Events.Listener.{
  Connection, EventSubscriber, Surroundings, deliver, drain, drain_from, handle_one, new_subscriber,
  position_of, read_batch, recorded_sequence, start,
}
use ai_engineering_os.Events.Listener.Order.{Delivers, IsNumbered}

abbrev event_numbered : ℕ → OsEvent
event_numbered n = record {
  sequence_number = some n;
  id = 900 + n;
  event_type = EventType.task_started;
  aggregate_type = "task";
  aggregate_id = 30;
  actor_id = none;
  actor_role = system SystemActor.os;
  payload = [];
  occurred_at = 7;
}

-- Read in no order.
abbrev three_events : List OsEvent
three_events = event_numbered 5 ∷ event_numbered 2 ∷ event_numbered 9 ∷ []

abbrev quiet_surroundings : Surroundings
quiet_surroundings = record {
  stream = λ k. ok three_events;
  connect = λ k. ok tt;
  listen = λ k. ok tt;
  handle = λ before event. ok tt;
}

abbrev from_two : EventSubscriber
from_two = new_subscriber 1 (some 2)

abbrev drained : EventSubscriber
drained = record from_two {
  position = some 9;
  handled = event_numbered 5 ∷ event_numbered 9 ∷ [];
  reads = 3;
}

three_events-IsNumbered : (events : List OsEvent) → three_events ≡ events → IsNumbered events
unfolding no_duplicates any
three_events-IsNumbered events e =
    subst (λ xs. IsNumbered xs) e (no_duplicates-IsApart sequence_of three_events refl)

drain_run : drain quiet_surroundings 3 from_two ≡ some (ok 2, drained)
unfolding drain drain_from deliver handle_one read_batch recorded_sequence list_since is_after
    filter sorted insert_sorted
drain_run = refl

ok_same : {A : Type 0} {x y : A} → ok x ≡ ok y → x ≡ y
ok_same e = cc

drain-Delivers_example : Delivers 0 from_two (ok 2) drained
drain-Delivers_example =
    drain-Delivers quiet_surroundings (λ k events e. three_events-IsNumbered events (ok_same e)) 3
      from_two (ok 2) drained drain_run

backlog_of_two : backlog three_events 2 ≡ event_numbered 5 ∷ event_numbered 9 ∷ []
unfolding list_since is_after filter sorted insert_sorted
backlog_of_two = refl

drain-Drains_example :
    (t : EventSubscriber) × (drain quiet_surroundings 3 from_two
      ≡ some (ok (length (backlog three_events 2)), t))
    × (t.handled ≡ [] ++ backlog three_events 2)
    × (backlog three_events (position_of t) ≡ [])
drain-Drains_example =
    drain-Drains quiet_surroundings (λ before event. refl) three_events
      (three_events-IsNumbered three_events refl) (λ k. refl) 3 from_two (omega arith)
      (rw backlog_of_two (omega arith))

drain-Passes_example :
    (full : ℕ) × (drained.reads ≡ from_two.reads + full + 1)
    × (full * from_two.batch_size ≤ length (backlog three_events 2))
    × (length (backlog three_events 2) < (full + 1) * from_two.batch_size)
drain-Passes_example =
    drain-Passes quiet_surroundings (λ before event. refl) three_events
      (three_events-IsNumbered three_events refl) (λ k. refl) 3 from_two (omega arith)
      (rw backlog_of_two (omega arith)) (ok 2) drained drain_run

start-at_end_example :
    start quiet_surroundings 1 (new_subscriber 200 none)
    ≡ some (
      ok 0,
      record (new_subscriber 200 none) {
        position = some 9;
        connection = Connection.live;
        reads = 2;
        connects = 1;
      },
    )
unfolding latest_sequence_number
start-at_end_example =
    start-at_end quiet_surroundings three_events 0 (new_subscriber 200 none) refl refl refl
      (λ k. refl)
