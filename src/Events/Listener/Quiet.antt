-- ===== src/Events/Listener/Quiet.antt =====
-- events/listener.py: a drain of a stream that nothing is appended to meanwhile.
use Prim.Native.Nat.{◌*◌}
use native.Mathlib.Nat.{add-mul, one-mul}
use mathlib.Core.Path.{subst}
use ai_engineering_os.Base.{
  Bool-cases, List, Result, [], ap, append-nil, append_assoc, arith, drop, if◌then◌else◌, inl, inr,
  is_empty, is_empty_elim, length, length-append, ltb, none, ok, refl, some, suc, sym, take, zero,
  ℕ, ◌++◌, ◌+◌, ◌<◌, ◌∙◌, ◌∷◌, ◌≡◌, ◌≤◌,
}
use ai_engineering_os.Domain.Event.{OsEvent, event_type_enum, transition_outcome_enum}
use ai_engineering_os.Events.Listener.{
  EventSubscriber, Surroundings, deliver, drain, drain_from, handle_one, position_of, read_batch,
  recorded_sequence, run_then,
}
use ai_engineering_os.Storage.Stream.{list_since}
use ai_engineering_os.Events.Listener.Backlog.{
  Rises-split, backlog, backlog-rest, drop_short, take-drop, take_full, take_some,
}
use ai_engineering_os.Events.Listener.Order.{IsNumbered, Rises, list_since-Rises}

-- One more full batch.
full_step :
    (passes k first rest total : ℕ)
    → passes * k ≤ rest
    → rest < (passes + 1) * k
    → first ≡ k
    → first + rest ≡ total
    → ((passes + 1) * k ≤ total) × (total < (passes + 1 + 1) * k)
full_step passes k first rest total within short size sum =
    let next = add-mul (passes + 1) 1 k ∙ ap (λ n. (passes + 1) * k + n) (one-mul k) in
    let here = add-mul passes 1 k ∙ ap (λ n. passes * k + n) (one-mul k) in
    (omega arith, omega arith)

module _ (w : Surroundings)
    (handles : (before : List OsEvent) (event : OsEvent) → w.handle before event ≡ ok tt) where
  handle_one-all :
      (event : OsEvent) (s : EventSubscriber) (n : ℕ)
      → event.sequence_number ≡ some n
      → handle_one w event s
        ≡ (ok tt, record s { handled = s.handled ++ event ∷ []; position = some n })
  unfolding handle_one recorded_sequence
  handle_one-all event s n e = rw (handles s.handled event, e) refl

  -- The handler raises nothing: the whole batch is handled.
  deliver-all :
      (batch : List OsEvent) (delivered : ℕ) (s : EventSubscriber) (q : ℕ)
      → Rises (position_of s) batch q
      → (t : EventSubscriber) × (deliver w batch delivered s ≡ (ok (delivered + length batch), t))
        × (t.handled ≡ s.handled ++ batch)
        × (position_of t ≡ q)
        × (t.batch_size ≡ s.batch_size)
        × (t.reads ≡ s.reads)
  unfolding deliver
  deliver-all [] delivered s q rises =
      (s, ap (λ n. (ok n, s)) (omega arith), sym (append-nil s.handled), sym rises, refl, refl)
  deliver-all (event ∷ rest) delivered s q (n, e, low, rises) =
      let here : EventSubscriber = record s {
        handled = s.handled ++ event ∷ [];
        position = some n;
      } in
      let (t, returned, handled, position, size, reads) =
        deliver-all rest (delivered + 1) here q rises in
      let count : delivered + 1 + length rest ≡ delivered + length (event ∷ rest) = omega arith in
      (
        t,
        rw (handle_one-all event s n e) (returned ∙ ap (λ k. (ok k, t)) count),
        handled ∙ append_assoc s.handled (event ∷ []) rest,
        position,
        size,
        reads,
      )

  module _ (events : List OsEvent) (numbered : IsNumbered events)
      (quiet : (k : ℕ) → w.stream k ≡ ok events) where
    limited_backlog : (p k : ℕ) → list_since events p (some k) ≡ take k (backlog events p)
    unfolding list_since
    limited_backlog p k = refl

    -- Every read but the last one found a full batch: there are as many of them as the batch size
    -- goes into the length of the backlog.
    abbrev pub Passes : EventSubscriber → EventSubscriber → Type 0
    Passes s t =
        (full : ℕ) × (t.reads ≡ s.reads + full + 1)
        × (full * s.batch_size ≤ length (backlog events (position_of s)))
        × (length (backlog events (position_of s)) < (full + 1) * s.batch_size)

    -- A drain that returns with the whole backlog handled, in its order, and none left.
    abbrev pub Drains : ℕ → ℕ → EventSubscriber → Type 0
    Drains fuel delivered s =
        (t : EventSubscriber) × (drain_from w fuel delivered s
          ≡ some (ok (delivered + length (backlog events (position_of s))), t))
        × (t.handled ≡ s.handled ++ backlog events (position_of s))
        × (backlog events (position_of t) ≡ [])
        × Passes s t

    -- One pass, over the first events of the backlog.
    one_pass :
        (fuel delivered : ℕ) (s : EventSubscriber)
        → 1 ≤ s.batch_size
        → drain_from w (suc fuel) delivered s ≡ (
            let seen : EventSubscriber = record s { reads = s.reads + 1 } in
            let batch = take s.batch_size (backlog events (position_of s)) in
            if is_empty (backlog events (position_of s))
            then some (ok delivered, seen)
            else run_then (deliver w batch delivered seen) (λ count u.
              if ltb (length batch) s.batch_size
              then some (ok count, u)
              else drain_from w fuel count u))
    unfolding drain_from read_batch
    one_pass fuel delivered s size =
        rw
          (
            quiet s.reads,
            limited_backlog (position_of s) s.batch_size,
            take_some s.batch_size (backlog events (position_of s)) size,
          )
          refl

    pub drain_from-Drains :
        (fuel delivered : ℕ) (s : EventSubscriber)
        → 1 ≤ s.batch_size
        → length (backlog events (position_of s)) < fuel
        → Drains fuel delivered s
    drain_from-Drains zero delivered s size bound = absurd (omega arith)
    drain_from-Drains (suc fuel) delivered s size bound =
        let p = position_of s in
        let all = backlog events p in
        let k = s.batch_size in
        let (q, rises) = list_since-Rises events p none numbered in
        let (m, first, second) = Rises-split p q k all rises in
        let rest = backlog-rest events p m q k numbered first second in
        let pass = one_pass fuel delivered s size in
        elim (Bool-cases (is_empty all)) [
          | inl empty ↦
              let none_left : all ≡ [] = is_empty_elim all empty in
              (
                seen,
                pass ∙ rw empty (rw none_left (ap (λ n. some (ok n, seen)) (omega arith))),
                rw none_left (sym (append-nil s.handled)),
                none_left,
                (0, omega arith, omega arith, ground arith),
              )
          | inr more ↦
              let (u, returned, handled, position, same_size, same_reads) =
                deliver-all (take k all) delivered seen m first in
              let left : backlog events (position_of u) ≡ drop k all =
                ap (backlog events) position ∙ rest in
              let sizes = length-append (take k all) (drop k all) in
              let joined = ap length (take-drop k all) in
              elim (Bool-cases (ltb (length (take k all)) k)) [
                | inl short ↦
                    let last : drop k all ≡ [] = drop_short k all (ground arith) in
                    let whole : take k all ≡ all =
                      sym (append-nil (take k all))
                      ∙ ap (λ xs. take k all ++ xs) (sym last)
                      ∙ take-drop k all in
                    (
                      u,
                      pass
                          ∙ rw (more, returned, short)
                              (ap (λ xs. some (ok (delivered + length xs), u)) whole),
                      handled ∙ ap (λ xs. s.handled ++ xs) whole,
                      left ∙ last,
                      (0, omega arith, omega arith, ground arith),
                    )
                | inr full ↦
                    let whole = take_full k all (ground arith) in
                    let bound' : length (backlog events (position_of u)) < fuel =
                      rw left (ground arith) in
                    let (t, onwards, handled', left', (passes, reads, within, short)) =
                      drain_from-Drains fuel (delivered + length (take k all)) u (rw same_size size)
                        bound' in
                    let (at_least, fewer) =
                      full_step passes k (length (take k all)) (length (drop k all)) (length all)
                        (rw (same_size, left) at within) (rw (same_size, left) at short) whole
                        (sym sizes ∙ joined) in
                    (
                      t,
                      pass
                          ∙ rw (more, returned, full)
                              (onwards
                                ∙ ap (λ n. some (ok n, t))
                                    (rw left (omega (arith, sizes, joined)))),
                      handled'
                          ∙ rw (handled, left)
                              (append_assoc s.handled (take k all) (drop k all)
                                ∙ ap (λ xs. s.handled ++ xs) (take-drop k all)),
                      left',
                      (passes + 1, omega arith, at_least, fewer),
                    )
              ]
        ]
      where
        seen : EventSubscriber
        seen = record s { reads = s.reads + 1 }

    -- With a batch size of at least 1, one pass more than there are events to handle is enough for a
    -- drain of a stream that nothing is appended to, by a handler that raises nothing: it returns,
    -- the count is the number of the events recorded after the position, these are what was handled,
    -- each once and in order, and nothing is recorded after the new position.
    pub drain-Drains :
        (fuel : ℕ) (s : EventSubscriber)
        → 1 ≤ s.batch_size
        → length (backlog events (position_of s)) < fuel
        → (t : EventSubscriber) × (drain w fuel s
            ≡ some (ok (length (backlog events (position_of s))), t))
          × (t.handled ≡ s.handled ++ backlog events (position_of s))
          × (backlog events (position_of t) ≡ [])
    unfolding drain
    drain-Drains fuel s size bound =
        let (t, returned, handled, rest, _) = drain_from-Drains fuel 0 s size bound in
        (t, returned ∙ ap (λ n. some (ok n, t)) (omega arith), handled, rest)

    -- With a batch size of at least 1 and more passes allowed than there are events to handle, a
    -- drain that returns, of a stream that nothing is appended to and by a handler that raises
    -- nothing, reads the stream exactly once more than the batch size goes into the number of events
    -- recorded after its first position.
    pub drain-Passes :
        (fuel : ℕ) (s : EventSubscriber)
        → 1 ≤ s.batch_size
        → length (backlog events (position_of s)) < fuel
        → (result : Result ℕ) (t : EventSubscriber) → drain w fuel s ≡ some (result, t)
        → (full : ℕ) × (t.reads ≡ s.reads + full + 1)
          × (full * s.batch_size ≤ length (backlog events (position_of s)))
          × (length (backlog events (position_of s)) < (full + 1) * s.batch_size)
    unfolding drain
    drain-Passes fuel s size bound result t h =
        let (u, returned, _, _, passes) = drain_from-Drains fuel 0 s size bound in
        subst (λ (x : EventSubscriber). Passes s x) (same_end u returned) passes
      where
        same_end :
            (u : EventSubscriber)
            → drain_from w fuel 0 s ≡ some (ok (0 + length (backlog events (position_of s))), u)
            → u ≡ t
        same_end u returned = cc
