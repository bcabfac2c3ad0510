-- ===== src/Events/Listener/Order.antt =====
-- events/listener.py: the order in which a subscriber handles events.
use mathlib.Core.Path.{subst}
use ai_engineering_os.Base.{
  IsApart, IsRising, List, Memᴰ, Option, Result, [], arith, filter, filter-IsApart, leb, length,
  mem-filter_elim, mem-sorted_elim, none, ok, refl, some, sorted_by, sorted_by-IsRising, suc, take,
  true, zero, ℕ, ◌++◌, ◌+◌, ◌<◌, ◌∷◌, ◌≡◌,
}
use ai_engineering_os.Domain.Event.{OsEvent}
use ai_engineering_os.Storage.Stream.{is_after, list_since, sequence_of}
use ai_engineering_os.Events.Listener.{EventSubscriber, position_of}

-- From the position `p`, each event is recorded under a number above the one before it; `q` is the
-- last number, or `p` where there is no event.
abbrev pub Rises : ℕ → List OsEvent → ℕ → Type 0
Rises p [] q = q ≡ p
Rises p (event ∷ rest) q = (n : ℕ) × (event.sequence_number ≡ some n) × (p < n) × Rises n rest q

-- What was handled between `s` and `t`, where `result` counts it on from `delivered`.
abbrev pub Delivers : ℕ → EventSubscriber → Result ℕ → EventSubscriber → Type 0
Delivers delivered s result t =
    (events : List OsEvent) × (t.handled ≡ s.handled ++ events)
    × Rises (position_of s) events (position_of t)
    × ((count : ℕ) → result ≡ ok count → count ≡ delivered + length events)

pub Rises-append :
    (p q r : ℕ) (xs ys : List OsEvent) → Rises p xs q → Rises q ys r → Rises p (xs ++ ys) r
Rises-append p q r [] ys first second = subst (λ k. Rises k ys r) first second
Rises-append p q r (x ∷ xs) ys (n, e, low, rest) second =
    (n, e, low, Rises-append n q r xs ys rest second)

pub Rises-take : (p q k : ℕ) (xs : List OsEvent) → Rises p xs q → (r : ℕ) × Rises p (take k xs) r
Rises-take p q zero xs rises = (p, refl)
Rises-take p q (suc k) [] rises = (p, refl)
Rises-take p q (suc k) (x ∷ xs) (n, e, low, rest) =
    let (r, taken) = Rises-take n q k xs rest in (r, (n, e, low, taken))

-- A row above the position has a number, which is above it.
pub is_after_elim :
    (p : ℕ) (event : OsEvent)
    → is_after p event ≡ true
    → (n : ℕ) × (event.sequence_number ≡ some n) × (sequence_of event ≡ n) × (p < n)
unfolding is_after
is_after_elim p event h = go event.sequence_number refl h
  where
    go :
        (number : Option ℕ)
        → event.sequence_number ≡ number
        → is_after p event ≡ true
        → (n : ℕ) × (event.sequence_number ≡ some n) × (sequence_of event ≡ n) × (p < n)
    go none e h = cc (rw e at h)
    go (some n) e h = (n, e, rw e refl, let h' = rw e at h in ground arith)

pub is_after_intro :
    (p : ℕ) (event : OsEvent) {n : ℕ}
    → event.sequence_number ≡ some n
    → p < n
    → is_after p event ≡ true
unfolding is_after
is_after_intro p event e low = rw e (ground arith)

IsRising-Rises :
    (p : ℕ) (events : List OsEvent)
    → IsRising sequence_of events
    → ((event : OsEvent) → Memᴰ event events → is_after p event ≡ true)
    → (q : ℕ) × Rises p events q
IsRising-Rises p [] rising after = (p, refl)
IsRising-Rises p (x ∷ xs) (above, rising) after =
    let (n, e, key, low) = is_after_elim p x (after x (Memᴰ.head refl)) in
    let (q, rest) =
      IsRising-Rises n xs rising (λ y m. onward n key y (above y m) (after y (Memᴰ.tail m))) in
    (q, (n, e, low, rest))
  where
    onward :
        (n : ℕ)
        → sequence_of x ≡ n
        → (y : OsEvent) → sequence_of x < sequence_of y
        → is_after p y ≡ true
        → is_after n y ≡ true
    onward n key y above h =
        let (m, e, k, low) = is_after_elim p y h in is_after_intro n y e (omega arith)

abbrev pub IsNumbered : List OsEvent → Type 0
IsNumbered events = IsApart sequence_of events

backlog-Rises :
    (events : List OsEvent) (p : ℕ)
    → IsNumbered events
    → (q : ℕ) × Rises p (sorted_by sequence_of (filter (is_after p) events)) q
backlog-Rises events p apart =
    let later = filter (is_after p) events in
    IsRising-Rises p (sorted_by sequence_of later)
      (sorted_by-IsRising sequence_of later (filter-IsApart sequence_of (is_after p) events apart))
      (λ event m.
        (mem-filter_elim (is_after p) events
          (mem-sorted_elim (λ a b. leb (sequence_of a) (sequence_of b)) later m)).1)

pub list_since-Rises :
    (events : List OsEvent) (p : ℕ) (limit : Option ℕ)
    → IsNumbered events
    → (q : ℕ) × Rises p (list_since events p limit) q
unfolding list_since
list_since-Rises events p none apart = backlog-Rises events p apart
list_since-Rises events p (some limit) apart =
    let (q, rises) = backlog-Rises events p apart in
    Rises-take p q limit (sorted_by sequence_of (filter (is_after p) events)) rises
