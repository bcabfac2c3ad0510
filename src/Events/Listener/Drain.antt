-- ===== src/Events/Listener/Drain.antt =====
-- events/listener.py: what a drain has handled when it ends, however it ends.
use mathlib.Core.Path.{subst}
use ai_engineering_os.Base.{
  Bool-cases, Error, List, Result, [], append-nil, append_assoc, arith, err, if◌then◌else◌, inl,
  inr, is_empty, length, length-append, ltb, ok, refl, some, suc, sym, zero, ℕ, ◌++◌, ◌+◌, ◌∙◌, ◌∷◌,
  ◌≡◌, ◌⊎◌,
}
use ai_engineering_os.Domain.Event.{OsEvent}
use ai_engineering_os.Storage.Stream.{list_since}
use ai_engineering_os.Events.Listener.{
  EventSubscriber, Surroundings, deliver, drain, drain_from, handle_one, position_of, read_batch,
  recorded_sequence, run_then,
}
use ai_engineering_os.Events.Listener.Order.{
  Delivers, IsNumbered, Rises, Rises-append, list_since-Rises,
}

module _ (w : Surroundings) where
  -- One event, numbered above the position.
  handle_one-Delivers :
      (event : OsEvent) (s : EventSubscriber) (n : ℕ)
      → event.sequence_number ≡ some n
      → (handle_one w event s
          ≡ (ok tt, record s { handled = s.handled ++ event ∷ []; position = some n }))
        ⊎ ((raised : Error) × (handle_one w event s ≡ (err raised, s)))
  unfolding handle_one recorded_sequence
  handle_one-Delivers event s n e = go (w.handle s.handled event) refl
    where
      go :
          (called : Result (Unit {0}))
          → w.handle s.handled event ≡ called
          → (handle_one w event s
              ≡ (ok tt, record s { handled = s.handled ++ event ∷ []; position = some n }))
            ⊎ ((raised : Error) × (handle_one w event s ≡ (err raised, s)))
      go (err raised) h = inr (raised, rw h refl)
      go (ok _) h = inl (rw (h, e) refl)

  pub deliver-Delivers :
      (batch : List OsEvent) (delivered : ℕ) (s : EventSubscriber) (q : ℕ)
      → Rises (position_of s) batch q
      → Delivers delivered s (deliver w batch delivered s).0 (deliver w batch delivered s).1
  unfolding deliver
  deliver-Delivers [] delivered s q rises = (
    [],
    sym (append-nil s.handled),
    refl,
    λ count e. let same : count ≡ delivered = cc in omega arith,
  )
  deliver-Delivers (event ∷ rest) delivered s q (n, e, low, rises) =
      elim (handle_one-Delivers event s n e) [
        | inl returned ↦ rw returned (
            let (events, handled, onwards, counted) =
              deliver-Delivers rest (delivered + 1)
                (record s { handled = s.handled ++ event ∷ []; position = some n }) q rises in
            (
              event ∷ events,
              (handled ∙ append_assoc s.handled (event ∷ []) events),
              (n, e, low, onwards),
              λ count h. let counted_on = counted count h in omega arith,
            ))
        | inr (raised, stopped) ↦ rw stopped ([], sym (append-nil s.handled), refl, λ count h. cc)
      ]

  Delivers-chain :
      (delivered count : ℕ) (s u t : EventSubscriber) (result : Result ℕ)
      → Delivers delivered s (ok count) u
      → Delivers count u result t
      → Delivers delivered s result t
  Delivers-chain delivered count s u t result (xs, hx, rx, cx) (ys, hy, ry, cy) = (
    xs ++ ys,
    rw hx at hy ∙ append_assoc s.handled xs ys,
    Rises-append (position_of s) (position_of u) (position_of t) xs ys rx ry,
    λ n h.
        let first = cx count refl in
        let second = cy n h in let both = length-append xs ys in omega arith,
  )

  Delivers-ended :
      (delivered : ℕ) (s : EventSubscriber) (r last : Result ℕ × EventSubscriber)
      → some r ≡ some last
      → Delivers delivered s r.0 r.1
      → Delivers delivered s last.0 last.1
  Delivers-ended delivered s r last e d =
      let same : r ≡ last = cc e in
      subst (λ (x : Result ℕ × EventSubscriber). Delivers delivered s x.0 x.1) same d

  pub drain_from-Delivers :
      ((k : ℕ) (events : List OsEvent) → w.stream k ≡ ok events → IsNumbered events)
      → (fuel delivered : ℕ) (s : EventSubscriber) (result : Result ℕ) (t : EventSubscriber)
      → drain_from w fuel delivered s ≡ some (result, t)
      → Delivers delivered s result t
  unfolding drain_from read_batch
  drain_from-Delivers numbered zero delivered s result t h = cc
  drain_from-Delivers numbered (suc fuel) delivered s result t h =
      go (w.stream s.reads) refl (λ n u k. drain_from-Delivers numbered fuel n u result t k) h
    where
      seen : EventSubscriber
      seen = record s { reads = s.reads + 1 }

      nothing :
          (r : Result ℕ)
          → ((count : ℕ) → r ≡ ok count → count ≡ delivered)
          → Delivers delivered s r seen
      nothing r counted = (
        [],
        sym (append-nil s.handled),
        refl,
        λ count e. let same = counted count e in omega arith,
      )

      batch_of : List OsEvent → List OsEvent
      batch_of events = list_since events (position_of s) (some s.batch_size)

      after_batch :
          (batch : List OsEvent) (r : Result ℕ × EventSubscriber)
          → Delivers delivered s r.0 r.1
          → ((n : ℕ) (u : EventSubscriber)
              → drain_from w fuel n u ≡ some (result, t)
              → Delivers n u result t)
          → (run_then r (λ count u.
              if ltb (length batch) s.batch_size
              then some (ok count, u)
              else drain_from w fuel count u))
            ≡ some (result, t)
          → Delivers delivered s result t
      after_batch batch (err raised, u) d onwards k =
          Delivers-ended delivered s (err raised, u) (result, t) k d
      after_batch batch (ok count, u) d onwards k =
          elim (Bool-cases (ltb (length batch) s.batch_size)) [
            | inl short ↦ Delivers-ended delivered s (ok count, u) (result, t) (rw short at k) d
            | inr full ↦
                Delivers-chain delivered count s u t result d (onwards count u (rw full at k))
          ]

      go :
          (found : Result (List OsEvent))
          → w.stream s.reads ≡ found
          → ((n : ℕ) (u : EventSubscriber)
              → drain_from w fuel n u ≡ some (result, t)
              → Delivers n u result t)
          → drain_from w (suc fuel) delivered s ≡ some (result, t)
          → Delivers delivered s result t
      go (err raised) e onwards k =
          Delivers-ended delivered s (err raised, seen) (result, t) (rw e at k)
            (nothing (err raised) (λ count h. cc))
      go (ok events) e onwards k =
          let (q, rises) =
            list_since-Rises events (position_of s) (some s.batch_size)
              (numbered s.reads events e) in
          elim (Bool-cases (is_empty (batch_of events))) [
            | inl empty ↦
                Delivers-ended delivered s (ok delivered, seen) (result, t) (rw (e, empty) at k)
                  (nothing (ok delivered) (λ count h. cc))
            | inr more ↦
                after_batch (batch_of events) (deliver w (batch_of events) delivered seen)
                  (deliver-Delivers (batch_of events) delivered seen q rises) onwards
                  (rw (e, more) at k)
          ]

  -- Whatever is appended to the stream between the reads, a drain handles events in strictly
  -- increasing order of their numbers, each above the position it started from, and none twice; the
  -- position it leaves is the number of the last one. So it is also when the handler or a read
  -- raises; when the drain returns, it returns the count of the events it handled. The condition is
  -- that no two rows of the stream have one number.
  pub drain-Delivers :
      ((k : ℕ) (events : List OsEvent) → w.stream k ≡ ok events → IsNumbered events)
      → (fuel : ℕ) (s : EventSubscriber) (result : Result ℕ) (t : EventSubscriber)
      → drain w fuel s ≡ some (result, t)
      → Delivers 0 s result t
  unfolding drain
  drain-Delivers numbered fuel s result t h = drain_from-Delivers numbered fuel 0 s result t h
