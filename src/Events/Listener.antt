-- ===== src/Events/Listener.antt =====
-- events/listener.py: the subscriber, which reads the event stream forward from its position.
-- What it meets from outside is `Surroundings`: what each read of the committed stream returns or
-- raises, whether each connection and its `add_listener` succeed, and the handler, which may raise. A
-- call returns `none` when its fuel, one unit for each pass of the loop of `drain`, is used up.
pub mod Order
pub mod Drain
pub mod Backlog
pub mod Quiet
pub mod Opening
use ai_engineering_os.Base.{
  Bool, Error, List, Option, Result, [], and_then, err, false, if◌then◌else◌, is_empty, length, ltb,
  none, ok, some, suc, true, zero, ℕ, ◌++◌, ◌+◌, ◌∷◌,
}
use ai_engineering_os.Storage.Stream.{latest_sequence_number, list_since}
use ai_engineering_os.Domain.Event.{OsEvent, event_type_enum, transition_outcome_enum}

pub record Surroundings : Type 0 where
  pub stream : ℕ → Result (List OsEvent)
  pub connect : ℕ → Result (Unit {0})
  pub listen : ℕ → Result (Unit {0})
  pub handle : List OsEvent → OsEvent → Result (Unit {0})

-- The dedicated connection: none, a live one, or one that the server has closed.
pub data Connection : Type 0 where
  absent live closed : Connection

pub record EventSubscriber : Type 0 where
  pub batch_size : ℕ
  pub position : Option ℕ
  pub wakeup : Bool
  pub connection : Connection
  pub pumping : Bool
  pub handled : List OsEvent
  pub reads : ℕ
  pub connects : ℕ

abbrev pub default_batch_size : ℕ
default_batch_size = 200

-- `__init__`
abbrev pub new_subscriber : ℕ → Option ℕ → EventSubscriber
new_subscriber batch_size start_from = record {
  batch_size = batch_size;
  position = start_from;
  wakeup = false;
  connection = Connection.absent;
  pumping = false;
  handled = [];
  reads = 0;
  connects = 0;
}

-- The property `position`: `self._position or 0`.
abbrev pub position_of : EventSubscriber → ℕ
position_of s = value s.position
  where
    value : Option ℕ → ℕ
    value none = 0
    value (some n) = n

unfoldable pub is_listening : EventSubscriber → Bool
is_listening s = elim s.connection [
  | Connection.absent ↦ false
  | Connection.live ↦ true
  | Connection.closed ↦ false
]

unfoldable pub recorded_sequence : OsEvent → Result ℕ
recorded_sequence event = value event.sequence_number
  where
    value : Option ℕ → Result ℕ
    value none = err Error.value_error
    value (some n) = ok n

-- One pass through the body of `for event in batch`.
unfoldable pub handle_one :
    Surroundings → OsEvent → EventSubscriber → Result (Unit {0}) × EventSubscriber
handle_one w event s = called (w.handle s.handled event)
  where
    advanced : Result ℕ → EventSubscriber → Result (Unit {0}) × EventSubscriber
    advanced (err raised) t = (err raised, t)
    advanced (ok n) t = (ok tt, record t { position = some n })

    called : Result (Unit {0}) → Result (Unit {0}) × EventSubscriber
    called (err raised) = (err raised, s)
    called (ok _) =
        advanced (recorded_sequence event) (record s { handled = s.handled ++ event ∷ [] })

-- A call that may use up its fuel.
abbrev pub Run : Type 0 → Type 0
Run Value = Option (Result Value × EventSubscriber)

abbrev pub run_then :
    {Value Next : Type 0}
    → Result Value × EventSubscriber
    → (Value → EventSubscriber → Run Next)
    → Run Next
run_then (err raised, s) next = some (err raised, s)
run_then (ok value, s) next = next value s

-- The loop over one batch, with the count of the events delivered so far.
unfoldable pub deliver :
    Surroundings → List OsEvent → ℕ → EventSubscriber → Result ℕ × EventSubscriber
deliver w [] delivered s = (ok delivered, s)
deliver w (event ∷ rest) delivered s =
    and_then (handle_one w event s) (λ _ t. deliver w rest (delivered + 1) t)

-- `uow.events.list_since(self.position, limit=self._batch_size)`
unfoldable pub read_batch : Surroundings → EventSubscriber → Result (List OsEvent) × EventSubscriber
read_batch w s = found (w.stream s.reads)
  where
    found : Result (List OsEvent) → Result (List OsEvent) × EventSubscriber
    found (err raised) = (err raised, record s { reads = s.reads + 1 })
    found (ok events) = (
      ok (list_since events (position_of s) (some s.batch_size)),
      record s { reads = s.reads + 1 },
    )

-- `drain`, from the loop on.
unfoldable pub drain_from : Surroundings → ℕ → ℕ → EventSubscriber → Run ℕ
drain_from w zero delivered s = none
drain_from w (suc fuel) delivered s = run_then (read_batch w s) (λ batch t.
    let onward = run_then (deliver w batch delivered t) (λ count u.
      let more = drain_from w fuel count u in
      if ltb (length batch) s.batch_size then some (ok count, u) else more) in
    if is_empty batch then some (ok delivered, t) else onward)

unfoldable pub drain : Surroundings → ℕ → EventSubscriber → Run ℕ
drain w fuel s = drain_from w fuel 0 s

-- `_subscribe`: the connection stays open when `add_listener` raises.
unfoldable pub subscribe : Surroundings → EventSubscriber → Result (Unit {0}) × EventSubscriber
subscribe w s = opened (w.connect s.connects)
  where
    opened : Result (Unit {0}) → Result (Unit {0}) × EventSubscriber
    opened (err raised) = (err raised, record s { connects = s.connects + 1 })
    opened (ok _) =
        (w.listen s.connects, record s { connects = s.connects + 1; connection = Connection.live })

-- `_unsubscribe`, which suppresses what closing the connection raises.
unfoldable pub unsubscribe : EventSubscriber → EventSubscriber
unsubscribe s = record s { connection = Connection.absent }

-- The opening position: where none was given, the end of the stream.
unfoldable pub open_position : Surroundings → EventSubscriber → Result (Unit {0}) × EventSubscriber
open_position w s = opened s.position
  where
    latest : Result (List OsEvent) → Result (Unit {0}) × EventSubscriber
    latest (err raised) = (err raised, record s { reads = s.reads + 1 })
    latest (ok events) =
        (ok tt, record s { reads = s.reads + 1; position = some (latest_sequence_number events) })

    opened : Option ℕ → Result (Unit {0}) × EventSubscriber
    opened none = latest (w.stream s.reads)
    opened (some n) = (ok tt, s)

unfoldable pub start : Surroundings → ℕ → EventSubscriber → Run ℕ
start w fuel s =
    run_then (subscribe w s) (λ _ t. run_then (open_position w t) (λ _ u. drain w fuel u))

unfoldable pub stop : EventSubscriber → EventSubscriber
stop s = unsubscribe (record s { pumping = false })

unfoldable pub reconnect : Surroundings → ℕ → EventSubscriber → Run ℕ
reconnect w fuel s = run_then (subscribe w (unsubscribe s)) (λ _ t. drain w fuel t)

unfoldable pub on_notification : EventSubscriber → EventSubscriber
on_notification s = record s { wakeup = true }

-- `except (asyncpg.PostgresError, OSError)`: any other exception leaves the loop of `run_forever`.
unfoldable pub recover : Surroundings → ℕ → Result ℕ × EventSubscriber → Run ℕ
recover w fuel (ok delivered, s) = some (ok delivered, s)
recover w fuel (err raised, s) = elim raised [
  | Error.link_lost ↦ reconnect w fuel s
  | other ↦ some (err other, s)
]

-- One turn of the loop of `run_forever`, once the wake-up is set.
unfoldable pub turn : Surroundings → ℕ → EventSubscriber → Run ℕ
turn w fuel s = elim (drain w fuel (record s { wakeup = false })) [
  | none ↦ none
  | some result ↦ recover w fuel result
]

unfoldable pub run_in_background : EventSubscriber → EventSubscriber
run_in_background s = record s { pumping = true }
