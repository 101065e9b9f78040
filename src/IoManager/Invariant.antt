-- ===== src/IoManager/Invariant.antt =====
-- The well-formedness of an IOManager: an event context is set exactly when its event is
-- registered, and the counter is the number of registered events.
use cpp_linux_server_frame.Base.{
  ℕ, zero, suc, ◌+◌, ◌*◌, ◌^◌, ◌≤◌, ◌<◌, ◌≡◌, refl, ap, sym, subst, ◌∙◌, Bool, true, false, List,
  [], ◌∷◌, Option, none, some, length, get_elem?, set, arith,
}
use cpp_linux_server_frame.IoManager.{
  EventContext, no_context, Task, run_fiber, run_cb, FdContext, IoManager, fill,
}

-- What addEvent stores for a task.
abbrev pub armed : ℕ → Task → EventContext
armed s (run_cb f) = record { scheduler = some s; fiber = none; cb = some f }
armed s (run_fiber f) = record { scheduler = some s; fiber = some f; cb = none }

abbrev pub Slot : Bool → EventContext → Type 0
Slot true e = (s : ℕ) × (t : Task) × (e ≡ armed s t)
Slot false e = e ≡ no_context

abbrev pub IsSound : FdContext → Type 0
IsSound c = Slot c.events.reads c.read_event_context × Slot c.events.writes c.write_event_context

abbrev pub bit : Bool → ℕ
bit true = 1
bit false = 0

-- The registered events of one context, and of all.
abbrev pub count : FdContext → ℕ
count c = bit c.events.reads + bit c.events.writes

abbrev pub total : List FdContext → ℕ
total [] = 0
total (c ∷ l) = count c + total l

-- The context at place `i` belongs to the file descriptor `i`.
abbrev pub AllSound : ℕ → List FdContext → Type 0
AllSound i [] = Unit {0}
AllSound i (c ∷ l) = (c.fd ≡ i) × IsSound c × AllSound (suc i) l

pub record IsValid (m : IoManager) : Type 0 where
  pub contexts : AllSound 0 m.fd_contexts
  pub counted : m.pending_event_count ≡ total m.fd_contexts
  -- The constructor makes 64 contexts.
  pub started : 64 ≤ length m.fd_contexts
  pub bounded : length m.fd_contexts < 2 ^ 32

abbrev unwrap : FdContext → Option FdContext → FdContext
unwrap d none = d
unwrap d (some c) = c

same_context : {c d : FdContext} → some d ≡ some c → d ≡ c
same_context {d = d} e = ap (unwrap d) e

pub AllSound-get :
    (i : ℕ) (l : List FdContext) (k : ℕ) (c : FdContext)
    → AllSound i l
    → get_elem? l k ≡ some c
    → IsSound c
AllSound-get i [] k c a e = cc
AllSound-get i (d ∷ l) zero c a e = subst IsSound (same_context e) a.1
AllSound-get i (d ∷ l) (suc k) c a e = AllSound-get (suc i) l k c a.2 e

pub AllSound-set :
    (i : ℕ) (l : List FdContext) (k : ℕ) (c c' : FdContext)
    → AllSound i l
    → get_elem? l k ≡ some c
    → IsSound c'
    → c'.fd ≡ c.fd
    → AllSound i (set l k c')
AllSound-set i [] k c c' a e s h = cc
AllSound-set i (d ∷ l) zero c c' a e s h =
    (h ∙ sym (ap (λ (x : FdContext). x.fd) (same_context e)) ∙ a.0, s, a.2)
AllSound-set i (d ∷ l) (suc k) c c' a e s h = (a.0, a.1, AllSound-set (suc i) l k c c' a.2 e s h)

pub total-set :
    (l : List FdContext) (k : ℕ) (c c' : FdContext)
    → get_elem? l k ≡ some c
    → total (set l k c') + count c ≡ total l + count c'
total-set [] k c c' e = cc
total-set (d ∷ l) zero c c' e = omega (arith, ap count (same_context e))
total-set (d ∷ l) (suc k) c c' e = omega (arith, total-set l k c c' e)

bit-le : (b : Bool) → bit b ≤ 1
bit-le true = omega arith
bit-le false = omega arith

pub total-le : (l : List FdContext) → total l ≤ 2 * length l
total-le [] = omega arith
total-le (c ∷ l) = omega (arith, total-le l, bit-le c.events.reads, bit-le c.events.writes)

pub fill-AllSound : (i size : ℕ) (l : List FdContext) → AllSound i l → AllSound i (fill i size l)
unfolding fill
fill-AllSound i zero l a = tt
fill-AllSound i (suc size) [] a = (refl, (refl, refl), fill-AllSound (suc i) size [] tt)
fill-AllSound i (suc size) (c ∷ l) a = (refl, a.1, fill-AllSound (suc i) size l a.2)

pub total-fill :
    (i size : ℕ) (l : List FdContext) → length l ≤ size → total (fill i size l) ≡ total l
unfolding fill
total-fill i zero [] h = refl
total-fill i zero (c ∷ l) h = absurd (omega arith)
total-fill i (suc size) [] h = omega (arith, total-fill (suc i) size [] (omega arith))
total-fill i (suc size) (c ∷ l) h = omega (arith, total-fill (suc i) size l (omega arith))

pub length-fill : (i size : ℕ) (l : List FdContext) → length (fill i size l) ≡ size
unfolding fill
length-fill i zero l = refl
length-fill i (suc size) [] = ap suc (length-fill (suc i) size [])
length-fill i (suc size) (c ∷ l) = ap suc (length-fill (suc i) size l)

pub get-some : {A : Type 0} (l : List A) (k : ℕ) → k < length l → (a : A) × (get_elem? l k ≡ some a)
get-some [] k h = absurd (omega arith)
get-some (x ∷ l) zero h = (x, refl)
get-some (x ∷ l) (suc k) h = get-some l k (omega arith)
