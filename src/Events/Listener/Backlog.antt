-- ===== src/Events/Listener/Backlog.antt =====
-- events/listener.py: the backlog of a subscriber, and a drain of it pass by pass.
use ai_engineering_os.Base.{
  Bool, Bool-cases, List, [], ap, arith, drop, false, filter, filter-IsApart, filter-sorted_by, inl,
  inr, is_empty, length, ltb, none, refl, some, sorted_by, suc, sym, take, true, zero, ℕ, ◌++◌, ◌<◌,
  ◌∙◌, ◌∷◌, ◌≡◌, ◌≤◌,
}
use ai_engineering_os.Domain.Event.{OsEvent}
use ai_engineering_os.Storage.Stream.{is_after, list_since, sequence_of}
use ai_engineering_os.Events.Listener.Order.{IsNumbered, Rises, is_after_elim, is_after_intro}

-- All that is recorded after the position `p`, in order.
abbrev pub backlog : List OsEvent → ℕ → List OsEvent
backlog events p = list_since events p none

module _ {A : Type 0} where
  pub take-drop : (k : ℕ) (xs : List A) → take k xs ++ drop k xs ≡ xs
  take-drop zero xs = refl
  take-drop (suc k) [] = refl
  take-drop (suc k) (x ∷ xs) = ap (λ zs. x ∷ zs) (take-drop k xs)

  pub take_some : (k : ℕ) (xs : List A) → 1 ≤ k → is_empty (take k xs) ≡ is_empty xs
  take_some zero xs h = absurd (omega arith)
  take_some (suc k) [] h = refl
  take_some (suc k) (x ∷ xs) h = refl

  pub drop_short : (k : ℕ) (xs : List A) → length (take k xs) < k → drop k xs ≡ []
  drop_short zero xs h = absurd (omega arith)
  drop_short (suc k) [] h = refl
  drop_short (suc k) (x ∷ xs) h = drop_short k xs (omega arith)

  pub take_full : (k : ℕ) (xs : List A) → k ≤ length (take k xs) → length (take k xs) ≡ k
  take_full zero xs h = refl
  take_full (suc k) [] h = absurd (omega arith)
  take_full (suc k) (x ∷ xs) h = let rest = take_full k xs (omega arith) in omega arith

  filter-filter :
      (p q : A → Bool)
      → ((x : A) → q x ≡ true → p x ≡ true)
      → (xs : List A) → filter q (filter p xs) ≡ filter q xs
  unfolding filter
  filter-filter p q narrower [] = refl
  filter-filter p q narrower (x ∷ xs) =
      let rest = filter-filter p q narrower xs in
      elim (Bool-cases (q x)) [
        | inl kept ↦ let also = narrower x kept in rw (also, kept) (ap (λ zs. x ∷ zs) rest)
        | inr dropped ↦ elim (Bool-cases (p x)) [
          | inl here ↦ rw (here, dropped) rest
          | inr gone ↦ rw (gone, dropped) rest
        ]
      ]

Rises-low : (p q : ℕ) (xs : List OsEvent) → Rises p xs q → p ≤ q
Rises-low p q [] h = omega arith
Rises-low p q (x ∷ xs) (n, e, low, rest) = let later = Rises-low n q xs rest in omega arith

pub Rises-split :
    (p q k : ℕ) (xs : List OsEvent)
    → Rises p xs q
    → (m : ℕ) × Rises p (take k xs) m × Rises m (drop k xs) q
Rises-split p q zero xs h = (p, refl, h)
Rises-split p q (suc k) [] h = (p, refl, h)
Rises-split p q (suc k) (x ∷ xs) (n, e, low, rest) =
    let (m, first, second) = Rises-split n q k xs rest in (m, (n, e, low, first), second)

is_after_number : (m n : ℕ) (x : OsEvent) → x.sequence_number ≡ some n → is_after m x ≡ ltb m n
unfolding is_after
is_after_number m n x e = rw e refl

above_all : (m p q : ℕ) (ys : List OsEvent) → m ≤ p → Rises p ys q → filter (is_after m) ys ≡ ys
unfolding filter
above_all m p q [] le h = refl
above_all m p q (y ∷ ys) le (n, e, low, rest) =
    let here = is_after_number m n y e in
    let yes_after : is_after m y ≡ true = here ∙ (ground arith) in
    rw yes_after (ap (λ zs. y ∷ zs) (above_all m n q ys (omega arith) rest))

beyond :
    (p m q : ℕ) (xs ys : List OsEvent)
    → Rises p xs m
    → Rises m ys q
    → filter (is_after m) (xs ++ ys) ≡ ys
unfolding filter
beyond p m q [] ys first second = above_all m m q ys (omega arith) second
beyond p m q (x ∷ xs) ys (n, e, low, rest) second =
    let later = Rises-low n m xs rest in
    let here = is_after_number m n x e in
    let not_after : is_after m x ≡ false = here ∙ (ground arith) in
    rw not_after (beyond n m q xs ys rest second)

is_after_lower : (p m : ℕ) (x : OsEvent) → p ≤ m → is_after m x ≡ true → is_after p x ≡ true
is_after_lower p m x le h =
    let (n, e, key, low) = is_after_elim m x h in is_after_intro p x e (omega arith)

backlog_further :
    (events : List OsEvent) (p m : ℕ)
    → IsNumbered events
    → p ≤ m
    → backlog events m ≡ filter (is_after m) (backlog events p)
unfolding list_since
backlog_further events p m apart le = sym (
    filter-sorted_by sequence_of (is_after m) (filter (is_after p) events)
      (filter-IsApart sequence_of (is_after p) events apart)
    ∙ ap (λ xs. sorted_by sequence_of xs)
        (filter-filter (is_after p) (is_after m) (λ x h. is_after_lower p m x le h) events))

-- After the first `k` events of a backlog, the others are the backlog.
pub backlog-rest :
    (events : List OsEvent) (p m q k : ℕ)
    → IsNumbered events
    → Rises p (take k (backlog events p)) m
    → Rises m (drop k (backlog events p)) q
    → backlog events m ≡ drop k (backlog events p)
backlog-rest events p m q k apart first second =
    backlog_further events p m apart (Rises-low p m (take k (backlog events p)) first)
    ∙ ap (λ zs. filter (is_after m) zs) (sym (take-drop k (backlog events p)))
    ∙ beyond p m q (take k (backlog events p)) (drop k (backlog events p)) first second
