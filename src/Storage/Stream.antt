-- ===== src/Storage/Stream.antt =====
-- storage/repositories/event_repo.py: the reads of the event stream.
use ai_engineering_os.Base.{
  Bool, List, Option, [], false, filter, if◌then◌else◌, ltb, none, some, sorted_by, take, ℕ, ◌∷◌,
}
use ai_engineering_os.Domain.Event.{OsEvent}

-- The column `sequence_number`, as an order: 0 before the database has assigned it.
abbrev pub sequence_of : OsEvent → ℕ
sequence_of event = value event.sequence_number
  where
    value : Option ℕ → ℕ
    value none = 0
    value (some n) = n

-- `OSEventRow.sequence_number > sequence_number`, which no null satisfies.
unfoldable pub is_after : ℕ → OsEvent → Bool
is_after position event = test event.sequence_number
  where
    test : Option ℕ → Bool
    test none = false
    test (some n) = ltb position n

-- `LIMIT`
abbrev pub limited {ℓ} : {A : Type ℓ} → Option ℕ → List A → List A
limited none xs = xs
limited (some limit) xs = take limit xs

unfoldable pub list_since : List OsEvent → ℕ → Option ℕ → List OsEvent
list_since events position limit =
    limited limit (sorted_by sequence_of (filter (is_after position) events))

unfoldable pub latest_sequence_number : List OsEvent → ℕ
latest_sequence_number [] = 0
latest_sequence_number (event ∷ rest) =
    let later = latest_sequence_number rest in
    if ltb later (sequence_of event) then sequence_of event else later
