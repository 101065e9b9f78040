-- ===== src/Timer/Collected.antt =====
-- Which callbacks listExpiredCbs yields, and what it leaves.
use cpp_linux_server_frame.Base.{
  ℕ, ◌<◌, ◌≤◌, ◌≡◌, ◌⊎◌, inl, inr, refl, ap, Bool, true, false, ◌&&◌, not, List, [], ◌∷◌, ◌++◌,
  append-nil, Option, Bool-cases, branch, arith,
}
use cpp_linux_server_frame.Timer.{Callback, Timer, TimerManager, keys, detect_clock_rollover}
use cpp_linux_server_frame.Timer.Order.{In, IsSorted, not-In-Above}
use cpp_linux_server_frame.Timer.Laws.{IsValid}
use cpp_linux_server_frame.Timer.Waiting.{first-le}
use cpp_linux_server_frame.Timer.Expiry.{
  after_now, due, left, is_empty, first_is_later, expire, list_expired_cbs,
}
use cpp_linux_server_frame.Timer.Due.{callbacks, settled, Ready, fire-Fires}

module _ (key : ℕ → ℕ) (now probe : ℕ) where
  due-append-left : (l : List ℕ) → due key now probe l ++ left key now probe l ≡ l
  unfolding due left
  due-append-left [] = refl
  due-append-left (a ∷ l) = ground (arith, due-append-left l)

  due-le : (l : List ℕ) (a : ℕ) → In a (due key now probe l) → key a ≤ now
  unfolding due
  due-le [] a i = elim i [ ]
  due-le (b ∷ l) a i = ground (arith, due-le l a)

  due_or_left :
      (l : List ℕ) (a : ℕ) → In a l → In a (left key now probe l) ⊎ In a (due key now probe l)
  unfolding due left
  due_or_left [] a i = elim i [ ]
  due_or_left (b ∷ l) a i = ground (arith, due_or_left l a)

  due_complete :
      (l : List ℕ) (a : ℕ) → IsSorted key l → In a l → key a < now → In a (due key now probe l)
  unfolding due
  due_complete [] a s i h = elim i [ ]
  due_complete (b ∷ l) a s i h = ground (arith, due_complete l a s.1, first-le key b a l s i)

  In-due : (l : List ℕ) (a : ℕ) → In a (due key now probe l) → In a l
  unfolding due
  In-due [] a i = i
  In-due (b ∷ l) a i = ground (arith, In-due l a)

  In-left : (l : List ℕ) (a : ℕ) → In a (left key now probe l) → In a l
  unfolding left
  In-left [] a i = i
  In-left (b ∷ l) a i = ground (arith, In-left l a)

  left-IsSorted : (l : List ℕ) → IsSorted key l → IsSorted key (left key now probe l)
  unfolding left
  left-IsSorted [] s = tt
  left-IsSorted (b ∷ l) s =
      branch (IsSorted key) (after_now key now probe b) (b ∷ l) (left key now probe l) (λ _. s)
        (λ _. left-IsSorted l s.1)

  left-due-Ready :
      (l : List ℕ) → IsSorted key l → Ready (left key now probe l) (due key now probe l)
  unfolding due left
  left-due-Ready [] s = tt
  left-due-Ready (b ∷ l) s = elim (Bool-cases (after_now key now probe b)) [
    | inl h ↦ rw (h, due) tt
    | inr h ↦
        rw (h, due, left)
          (
            (λ i. not-In-Above key b l s.0 (In-left l b i)),
            (λ i. not-In-Above key b l s.0 (In-due l b i)),
            left-due-Ready l s.1,
          )
  ]

all-Ready : (key : ℕ → ℕ) (l : List ℕ) → IsSorted key l → Ready [] l
all-Ready key [] s = tt
all-Ready key (a ∷ l) s = ((λ i. elim i [ ]), not-In-Above key a l s.0, all-Ready key l s.1)

-- The timers that expired, in order, with the time `now` and the rollover of the clock.
pub record Collects (now : ℕ) (rollover : Bool) (m : TimerManager)
    (r : List (Option Callback) × TimerManager) : Type 0 where
  pub expired : List ℕ
  pub others : List ℕ
  pub first_ones : expired ++ others ≡ m.timers
  pub on_time : rollover ≡ false → (a : ℕ) → In a expired → (m.store a).next ≤ now
  pub complete : (a : ℕ) → In a m.timers → (m.store a).next < now → In a expired
  pub cbs : r.0 ≡ callbacks m.store expired
  pub settles : (a : ℕ) → In a expired → r.1.store a ≡ settled now (m.store a)
  pub leaves : (a : ℕ) → (In a expired → ⊥) → r.1.store a ≡ m.store a
  pub valid : IsValid r.1

-- An early return.
nothing_due :
    (now : ℕ) (rollover : Bool) (m m' : TimerManager)
    → IsValid m'
    → m'.store ≡ m.store
    → ((a : ℕ) → In a m.timers → now ≤ (m.store a).next)
    → Collects now rollover m ([], m')
nothing_due now rollover m m' v same later = record {
  expired = [];
  others = m.timers;
  first_ones = refl;
  on_time = λ _ a i. elim i [ ];
  complete = λ a i h. absurd (omega (arith, later a i));
  cbs = refl;
  settles = λ a i. elim i [ ];
  leaves = λ a _. ap (λ (s : ℕ → Timer). s a) same;
  valid = v;
}

empty-later : (l : List ℕ) (P : ℕ → Type 0) → is_empty l ≡ true → (a : ℕ) → In a l → P a
empty-later [] P h a i = elim i [ ]
empty-later (b ∷ l) P h a i = cc

first-later :
    (store : ℕ → Timer) (now : ℕ) (l : List ℕ)
    → IsSorted (keys store) l
    → first_is_later store now l ≡ true
    → (a : ℕ) → In a l
    → now ≤ (store a).next
first-later store now [] s h a i = elim i [ ]
first-later store now (b ∷ l) s h a i = ground (arith, first-le (keys store) b a l s i)

expire-Collects :
    (now probe : ℕ) (rollover : Bool) (m : TimerManager)
    → IsValid m
    → Collects now rollover m (expire now probe rollover m)
unfolding expire
expire-Collects now probe true m v =
    let f =
      fire-Fires now m.timers m.store [] tt (λ b n. inr (v.armed b n))
        (all-Ready (keys m.store) m.timers v.sorted) in
    record {
      expired = m.timers;
      others = [];
      first_ones = append-nil m.timers;
      on_time = λ h. cc;
      complete = λ a i _. i;
      cbs = f.cbs;
      settles = f.settles;
      leaves = f.leaves;
      valid = record { sorted = f.sorted; armed = f.armed };
    }
expire-Collects now probe false m v =
    let key = keys m.store in
    let f =
      fire-Fires now (due key now probe m.timers) m.store (left key now probe m.timers)
        (left-IsSorted key now probe m.timers v.sorted)
        (λ b n. due_or_left key now probe m.timers b (v.armed b n))
        (left-due-Ready key now probe m.timers v.sorted) in
    record {
      expired = due key now probe m.timers;
      others = left key now probe m.timers;
      first_ones = due-append-left key now probe m.timers;
      on_time = λ _. due-le key now probe m.timers;
      complete = λ a i h. due_complete key now probe m.timers a v.sorted i h;
      cbs = f.cbs;
      settles = f.settles;
      leaves = f.leaves;
      valid = record { sorted = f.sorted; armed = f.armed };
    }

and_true : (a b : Bool) → (a && b) ≡ true → b ≡ true
and_true true b h = h
and_true false b h = cc

-- On a valid TimerManager, listExpiredCbs splits the set into a front of timers that expire and
-- the rest: every timer due before `now` is in the front, and unless the clock was set back all
-- of the front are due at `now` at the latest; it yields the callbacks of the front in order,
-- restarts its recurring timers from `now`, takes the callback from the others, leaves every
-- other timer as it was, and the manager valid.
pub list_expired_cbs-Collects :
    (now probe : ℕ) (m : TimerManager)
    → IsValid m
    → Collects now (detect_clock_rollover now m).0 m (list_expired_cbs now probe m)
unfolding list_expired_cbs detect_clock_rollover
list_expired_cbs-Collects now probe m v =
    branch P (is_empty m.timers) ([], m) _
      (λ h.
        nothing_due now rollover m m v refl (empty-later m.timers (λ a. now ≤ (m.store a).next) h))
      (λ _.
        branch P (not rollover && first_is_later m.store now m.timers) ([], m') _
          (λ h. nothing_due now rollover m m' v' refl (
            first-later m.store now m.timers v.sorted
              (and_true (not rollover) (first_is_later m.store now m.timers) h)))
          (λ _. same_set (expire-Collects now probe rollover m' v')))
  where
    rollover : Bool
    rollover = (detect_clock_rollover now m).0

    m' : TimerManager
    m' = (detect_clock_rollover now m).1

    P : List (Option Callback) × TimerManager → Type 0
    P = Collects now rollover m

    v' : IsValid m'
    v' = record { sorted = v.sorted; armed = v.armed }

    same_set :
        {r : List (Option Callback) × TimerManager}
        → Collects now rollover m' r
        → Collects now rollover m r
    same_set c = record {
      expired = c.expired;
      others = c.others;
      first_ones = c.first_ones;
      on_time = c.on_time;
      complete = c.complete;
      cbs = c.cbs;
      settles = c.settles;
      leaves = c.leaves;
      valid = c.valid;
    }
