-- ===== src/Timer/Due.antt =====
-- listExpiredCbs yields the callbacks of the timers that are due, in order, and leaves the set
-- valid.
use cpp_linux_server_frame.Base.{
  ℕ, ◌+◌, ◌≡◌, ◌≢◌, ◌⊎◌, inl, inr, refl, ap, ap₂, sym, subst, ◌∙◌, Bool, List, [], ◌∷◌, branch,
  Option, none, if◌then◌else◌,
}
use cpp_linux_server_frame.Timer.{Callback, Timer, u64, update, keys, insert}
use cpp_linux_server_frame.Timer.Order.{
  In, IsSorted, insert-IsSorted, In-insert, insert-In_self, insert-In,
}
use cpp_linux_server_frame.Timer.Laws.{update_self, update_other, same_or_not, update-IsSorted}
use cpp_linux_server_frame.Timer.Expiry.{Fired, fire_one, fire}

abbrev pub callbacks : (ℕ → Timer) → List ℕ → List (Option Callback)
callbacks store [] = []
callbacks store (a ∷ l) = (store a).cb ∷ callbacks store l

-- A timer that has expired: it starts again, or it loses its callback.
abbrev pub settled : ℕ → Timer → Timer
settled now t = if t.recurring then record t { next = u64 (now + t.ms) } else record t { cb = none }

-- The expired timers are apart, and out of the set.
abbrev pub Ready : List ℕ → List ℕ → Type 0
Ready timers [] = Unit {0}
Ready timers (a ∷ e) = (In a timers → ⊥) × (In a e → ⊥) × Ready timers e

Ready-insert :
    (key : ℕ → ℕ) (a : ℕ) (timers e : List ℕ)
    → (In a e → ⊥)
    → Ready timers e
    → Ready (insert key a timers) e
Ready-insert key a timers [] n r = tt
Ready-insert key a timers (b ∷ e) n r = (
  (λ i. elim (In-insert key a b timers i) [ inl h ↦ n (inl (sym h)) | inr j ↦ r.0 j ]),
  r.1,
  Ready-insert key a timers e (λ i. n (inr i)) r.2,
)

callbacks-update :
    (store : ℕ → Timer) (a : ℕ) (t : Timer) (e : List ℕ)
    → (In a e → ⊥)
    → callbacks (update store a t) e ≡ callbacks store e
callbacks-update store a t [] n = refl
callbacks-update store a t (b ∷ e) n =
    ap₂ ◌∷◌ (ap (λ (x : Timer). x.cb) (update_other store a b t (λ h. n (inl h))))
      (callbacks-update store a t e (λ i. n (inr i)))

-- The timers that expire, and the others.
pub record Fires (now : ℕ) (e : List ℕ) (store : ℕ → Timer) (f : Fired) : Type 0 where
  pub sorted : IsSorted (keys f.store) f.timers
  pub armed : (b : ℕ) → (f.store b).cb ≢ none → In b f.timers
  pub cbs : f.cbs ≡ callbacks store e
  pub settles : (b : ℕ) → In b e → f.store b ≡ settled now (store b)
  pub leaves : (b : ℕ) → (In b e → ⊥) → f.store b ≡ store b

record OneFired (now : ℕ) (store : ℕ → Timer) (timers e : List ℕ) (a : ℕ) (r : (ℕ → Timer) × List ℕ)
    : Type 0 where
  changed : r.0 ≡ update store a (settled now (store a))
  sorted : IsSorted (keys r.0) r.1
  armed : (b : ℕ) → (r.0 b).cb ≢ none → In b r.1 ⊎ In b e
  ready : Ready r.1 e

fire_one-OneFired :
    (now : ℕ) (store : ℕ → Timer) (timers e : List ℕ) (a : ℕ)
    → IsSorted (keys store) timers
    → ((b : ℕ) → (store b).cb ≢ none → In b timers ⊎ In b (a ∷ e))
    → Ready timers (a ∷ e)
    → OneFired now store timers e a (fire_one now store timers a)
unfolding fire_one
fire_one-OneFired now store timers e a s armed r =
    branch (OneFired now store timers e a) (store a).recurring (again, insert (keys again) a timers)
      (once, timers)
      (λ h. record {
        changed = ap (λ (b : Bool). update store a (if b then t else u)) (sym h);
        sorted = insert-IsSorted (keys again) a timers (update-IsSorted store a t timers r.0 s);
        armed = λ b n. elim (same_or_not a b) [
          | inl eq ↦ inl (
              subst (λ (c : ℕ). In c (insert (keys again) a timers)) eq
                (insert-In_self (keys again) a timers))
          | inr ne ↦ elim (other b t ne n) [
            | inl i ↦ inl (insert-In (keys again) a b timers i)
            | inr i ↦ inr i
          ]
        ];
        ready = Ready-insert (keys again) a timers e r.1 r.2;
      })
      (λ h. record {
        changed = ap (λ (b : Bool). update store a (if b then t else u)) (sym h);
        sorted = update-IsSorted store a u timers r.0 s;
        armed = λ b n. elim (same_or_not a b) [
          | inl eq ↦ absurd (
              n (
                subst (λ (c : ℕ). (once c).cb ≡ none) eq
                  (ap (λ (x : Timer). x.cb) (update_self store a u))))
          | inr ne ↦ other b u ne n
        ];
        ready = r.2;
      })
  where
    t : Timer
    t = record (store a) { next = u64 (now + (store a).ms) }

    u : Timer
    u = record (store a) { cb = none }

    again : ℕ → Timer
    again = update store a t

    once : ℕ → Timer
    once = update store a u

    other : (b : ℕ) (x : Timer) → a ≢ b → (update store a x b).cb ≢ none → In b timers ⊎ In b e
    other b x ne n =
        elim (armed b (subst (λ (y : Timer). y.cb ≢ none) (update_other store a b x ne) n)) [
          | inl i ↦ inl i
          | inr (inl eq) ↦ absurd (ne (sym eq))
          | inr (inr i) ↦ inr i
        ]

-- One more timer in front.
fire_cons-Fires :
    (now a : ℕ) (e : List ℕ) (store : ℕ → Timer) (timers : List ℕ)
    → (In a e → ⊥)
    → OneFired now store timers e a (fire_one now store timers a)
    → Fires now e
        (fire_one now store timers a).0
        (fire now e (fire_one now store timers a).0 (fire_one now store timers a).1)
    → Fires now (a ∷ e) store (fire now (a ∷ e) store timers)
unfolding fire
fire_cons-Fires now a e store timers apart one rest = record {
  sorted = rest.sorted;
  armed = rest.armed;
  cbs =
      ap (λ (l : List (Option Callback)). (store a).cb ∷ l)
        (rest.cbs
          ∙ ap (λ (h : ℕ → Timer). callbacks h e) one.changed
          ∙ callbacks-update store a (settled now (store a)) e apart);
  settles = λ b i. elim i [
    | inl eq ↦
        subst (λ (c : ℕ). (fire now e one_step.0 one_step.1).store c ≡ settled now (store c))
          (sym eq)
          (rest.leaves a apart
            ∙ ap (λ (h : ℕ → Timer). h a) one.changed
            ∙ update_self store a (settled now (store a)))
    | inr j ↦
        rest.settles b j
        ∙ ap (settled now) (kept b (λ eq. apart (subst (λ (c : ℕ). In c e) (sym eq) j)))
  ];
  leaves = λ b away. rest.leaves b (λ j. away (inr j)) ∙ kept b (λ eq. away (inl (sym eq)));
}
  where
    one_step : (ℕ → Timer) × List ℕ
    one_step = fire_one now store timers a

    kept : (b : ℕ) → a ≢ b → one_step.0 b ≡ store b
    kept b ne =
        ap (λ (h : ℕ → Timer). h b) one.changed ∙ update_other store a b (settled now (store a)) ne

pub fire-Fires :
    (now : ℕ) (e : List ℕ) (store : ℕ → Timer) (timers : List ℕ)
    → IsSorted (keys store) timers
    → ((b : ℕ) → (store b).cb ≢ none → In b timers ⊎ In b e)
    → Ready timers e
    → Fires now e store (fire now e store timers)
unfolding fire
fire-Fires now [] store timers s armed r = record {
  sorted = s;
  armed = λ b n. elim (armed b n) [ inl i ↦ i | inr i ↦ elim i [ ] ];
  cbs = refl;
  settles = λ b i. elim i [ ];
  leaves = λ b _. refl;
}
fire-Fires now (a ∷ e) store timers s armed r =
    fire_cons-Fires now a e store timers r.1 (fire_one-OneFired now store timers e a s armed r) (
      fire-Fires now e (fire_one now store timers a).0 (fire_one now store timers a).1
        (fire_one-OneFired now store timers e a s armed r).sorted
        (fire_one-OneFired now store timers e a s armed r).armed
        (fire_one-OneFired now store timers e a s armed r).ready)
