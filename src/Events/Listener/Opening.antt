-- ===== src/Events/Listener/Opening.antt =====
-- events/listener.py: a subscriber that starts with no position given.
use ai_engineering_os.Events.Listener.{
  Connection, EventSubscriber, Surroundings, drain, drain_from, open_position, read_batch, start,
  subscribe,
}
use ai_engineering_os.Events.Listener.Order.{is_after_elim}
use ai_engineering_os.Base.{
  Bool-cases, List, Memᴰ, Option, [], ap, arith, false, filter_none, inl, inr, ltb, none, ok, refl,
  some, sorted, sorted_by, suc, zero, ℕ, ◌+◌, ◌∷◌, ◌≡◌, ◌≤◌,
}
use ai_engineering_os.Domain.Event.{OsEvent}
use ai_engineering_os.Storage.Stream.{
  is_after, latest_sequence_number, limited, list_since, sequence_of,
}

latest_bound :
    (events : List OsEvent) {event : OsEvent}
    → Memᴰ event events
    → sequence_of event ≤ latest_sequence_number events
unfolding latest_sequence_number
latest_bound [] m = elim m [ ]
latest_bound (x ∷ xs) (Memᴰ.head e) =
    let same = ap sequence_of e in
    elim (Bool-cases (ltb (latest_sequence_number xs) (sequence_of x))) [
      | inl more ↦ rw more (omega arith)
      | inr less ↦ rw less (ground arith)
    ]
latest_bound (x ∷ xs) (Memᴰ.tail m) =
    let later = latest_bound xs m in
    elim (Bool-cases (ltb (latest_sequence_number xs) (sequence_of x))) [
      | inl more ↦ rw more (ground arith)
      | inr less ↦ rw less later
    ]

not_after_latest :
    (events : List OsEvent) (event : OsEvent)
    → Memᴰ event events
    → is_after (latest_sequence_number events) event ≡ false
not_after_latest events event m =
    elim (Bool-cases (is_after (latest_sequence_number events) event)) [
      | inl after ↦
          let (n, e, key, low) = is_after_elim (latest_sequence_number events) event after in
          let bound = latest_bound events m in absurd (omega arith)
      | inr before ↦ before
    ]

limited_nil : (limit : Option ℕ) → limited limit (sorted_by sequence_of []) ≡ []
unfolding sorted
limited_nil none = refl
limited_nil (some zero) = refl
limited_nil (some (suc k)) = refl

no_backlog :
    (events : List OsEvent) (limit : Option ℕ)
    → list_since events (latest_sequence_number events) limit ≡ []
unfolding list_since
no_backlog events limit =
    rw (filter_none (is_after (latest_sequence_number events)) events (not_after_latest events))
      (limited_nil limit)

-- A subscriber without a position that starts, while nothing is appended, hands none of the events
-- recorded so far to its handler, whatever the handler and the batch size: it has then read the
-- stream twice, its position is the highest number recorded, or 0, and its subscription is live.
-- One pass is enough. The condition is that the connection and its `add_listener` succeed.
pub start-at_end :
    (w : Surroundings) (events : List OsEvent) (fuel : ℕ) (s : EventSubscriber)
    → s.position ≡ none
    → w.connect s.connects ≡ ok tt
    → w.listen s.connects ≡ ok tt
    → ((k : ℕ) → w.stream k ≡ ok events)
    → start w (suc fuel) s
      ≡ some (
        ok 0,
        record s {
          position = some (latest_sequence_number events);
          connection = Connection.live;
          reads = s.reads + 1 + 1;
          connects = s.connects + 1;
        },
      )
unfolding start subscribe open_position drain drain_from read_batch
start-at_end w events fuel s unset connects listens quiet =
    rw
      (
        connects,
        listens,
        unset,
        quiet s.reads,
        quiet (s.reads + 1),
        no_backlog events (some s.batch_size),
      )
      refl
