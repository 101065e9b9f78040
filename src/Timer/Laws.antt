-- ===== src/Timer/Laws.antt =====
-- The member functions keep the set in order, and a timer with a callback stands in it.
use cpp_linux_server_frame.Base.{
  ℕ, ◌≡◌, ◌≢◌, ◌↔◌, ◌⊎◌, inl, inr, refl, ap, sym, subst, ◌∙◌, Bool, true, false, List, none, some,
  ◌==◌, Bool-cases, Option-cases, arith,
}
use cpp_linux_server_frame.Timer.{
  Callback, Timer, TimerManager, update, keys, insert, erase, Outcome, returned, cancel,
}
use cpp_linux_server_frame.Timer.Order.{
  In, IsSorted, insert-IsSorted, insert-In_self, insert-In, In→found, erase-IsSorted, erase-In,
  not-In-erase, IsSorted_congr,
}

pub record IsValid (m : TimerManager) : Type 0 where
  pub sorted : IsSorted (keys m.store) m.timers
  pub armed : (a : ℕ) → (m.store a).cb ≢ none → In a m.timers

pub update_self : (store : ℕ → Timer) (a : ℕ) (t : Timer) → update store a t a ≡ t
update_self store a t = ground arith

pub update_other : (store : ℕ → Timer) (a b : ℕ) (t : Timer) → a ≢ b → update store a t b ≡ store b
update_other store a b t n = ground arith

pub same_or_not : (a b : ℕ) → (a ≡ b) ⊎ (a ≢ b)
same_or_not a b = elim (Bool-cases (a == b)) [
  | inl e ↦ inl (ground arith)
  | inr n ↦ inr (λ e. ground arith)
]

-- An object that is not in the set can change.
pub update-IsSorted :
    (store : ℕ → Timer) (a : ℕ) (t : Timer) (l : List ℕ)
    → (In a l → ⊥)
    → IsSorted (keys store) l
    → IsSorted (keys (update store a t)) l
update-IsSorted store a t l away = IsSorted_congr (keys store) (keys (update store a t)) l (λ b i.
    elim (same_or_not a b) [
      | inl e ↦ absurd (away (subst (λ (c : ℕ). In c l) (sym e) i))
      | inr n ↦ ap (λ (t : Timer). t.next) (sym (update_other store a b t n))
    ])

-- The timers with a callback, once the object at `a` has changed.
pub armed-update :
    (store : ℕ → Timer) (a : ℕ) (t : Timer) (l l' : List ℕ)
    → ((b : ℕ) → (store b).cb ≢ none → In b l)
    → (t.cb ≢ none → In a l')
    → ((b : ℕ) → b ≢ a → In b l → In b l')
    → (b : ℕ) → (update store a t b).cb ≢ none
    → In b l'
armed-update store a t l l' armed here others b h = elim (same_or_not a b) [
  | inl e ↦
      subst (λ (c : ℕ). In c l') e
        (here (
          subst (λ (x : Timer). x.cb ≢ none) (ap (update store a t) (sym e) ∙ update_self store a t)
            h))
  | inr n ↦
      others b (λ e. n (sym e))
        (armed b (subst (λ (x : Timer). x.cb ≢ none) (update_other store a b t n) h))
]

-- Erasing a timer and changing its object.
module _ (m : TimerManager) (a : ℕ) (t : Timer) (v : IsValid m) where
  erased-IsSorted : IsSorted (keys (update m.store a t)) (erase (keys m.store) a m.timers)
  erased-IsSorted =
      update-IsSorted m.store a t (erase (keys m.store) a m.timers)
        (not-In-erase (keys m.store) a m.timers v.sorted)
        (erase-IsSorted (keys m.store) a m.timers v.sorted)

  abbrev pub moved : List ℕ
  moved = insert (keys (update m.store a t)) a (erase (keys m.store) a m.timers)

  pub moved-IsSorted : IsSorted (keys (update m.store a t)) moved
  moved-IsSorted =
      insert-IsSorted (keys (update m.store a t)) a (erase (keys m.store) a m.timers)
        erased-IsSorted

  pub moved-armed : (b : ℕ) → (update m.store a t b).cb ≢ none → In b moved
  moved-armed =
      armed-update m.store a t m.timers moved v.armed
        (λ _. insert-In_self (keys (update m.store a t)) a (erase (keys m.store) a m.timers))
        (λ b n i.
          insert-In (keys (update m.store a t)) a b (erase (keys m.store) a m.timers)
            (erase-In (keys m.store) a b m.timers n i))

pub record Cancelled (m : TimerManager) (a : ℕ) (r : Outcome (Bool × TimerManager)) : Type 0 where
  pub did : Bool
  pub after : TimerManager
  pub returns : r ≡ returned (did, after)
  pub valid : IsValid after
  pub disarmed : (after.store a).cb ≡ none
  pub gone : did ≡ true → In a after.timers → ⊥
  pub exactly : (did ≡ true) ↔ ((m.store a).cb ≢ none)

-- On a valid TimerManager, cancel never erases at the end of the set; it returns true exactly
-- when the timer had a callback, and then the timer is out of the set; in any case it has no
-- callback afterwards, and the manager is valid.
pub cancel-Cancelled : (m : TimerManager) (a : ℕ) → IsValid m → Cancelled m a (cancel m a)
unfolding cancel
cancel-Cancelled m a v = elim (Option-cases (m.store a).cb) [
  | inl e ↦ record {
    did = false;
    after = m;
    returns = rw (cancel, e) refl;
    valid = v;
    disarmed = e;
    gone = λ h. cc;
    exactly = ((λ h. cc), (λ n. absurd (n e)));
  }
  | inr (f, e) ↦
      let there = In→found (keys m.store) a m.timers (v.armed a (λ n. some_none (sym e ∙ n))) in
      let t : Timer = record (m.store a) { cb = none } in
      record {
        did = true;
        after = record m { store = update m.store a t; timers = erase (keys m.store) a m.timers };
        returns = rw (cancel, e, there) refl;
        valid = record {
          sorted = erased-IsSorted m a t v;
          armed =
              armed-update m.store a t m.timers (erase (keys m.store) a m.timers) v.armed
                (λ n. absurd (n refl)) (λ b n i. erase-In (keys m.store) a b m.timers n i);
        };
        disarmed = ap (λ (x : Timer). x.cb) (update_self m.store a t);
        gone = λ _ i. not-In-erase (keys m.store) a m.timers v.sorted i;
        exactly = ((λ _ n. some_none (sym e ∙ n)), (λ _. refl));
      }
]
  where
    some_none : {f : Callback} → some f ≡ none → ⊥
    some_none h = cc
