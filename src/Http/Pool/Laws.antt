-- ===== src/Http/Pool/Laws.antt =====
-- What a pool hands out, and that it counts its connections.
use cpp_linux_server_frame.Base.{
  ℕ, ◌+◌, ◌%◌, ◌^◌, ◌≤◌, ◌<◌, ◌≡◌, ◌≢◌, ◌⊎◌, inl, inr, refl, ap, sym, ◌∙◌, Bool, true, false, ◌&&◌,
  ◌||◌, not, List, [], ◌∷◌, ◌++◌, append-nil, Option, none, some, leb, length, length-append,
  branch, arith,
}
use cpp_linux_server_frame.Http.Pool.{
  HttpConnectionPool, is_too_old, Scanned, scan, Taken, hand_out, get_connection, release_ptr,
}

-- The connection can be used at the time `now`.
abbrev pub usable : ℕ → HttpConnectionPool → ℕ → Bool
usable now p c = (p.connections c).is_connected && not (is_too_old now p c)

abbrev pub AllUnusable : ℕ → HttpConnectionPool → List ℕ → Type 0
AllUnusable now p [] = Unit {0}
AllUnusable now p (c ∷ l) = (usable now p c ≡ false) × AllUnusable now p l

-- The list that is scanned: unusable connections, and the first that is usable.
pub data Scans (now : ℕ) (p : HttpConnectionPool) : List ℕ → Scanned → Type 0 where
  nothing :
      (l : List ℕ)
      → AllUnusable now p l
      → Scans now p l (record { invalid_connections = l; conn = none; left = [] })
  first :
      (front left : List ℕ) (c : ℕ)
      → AllUnusable now p front
      → usable now p c ≡ true
      → Scans now p
          (front ++ c ∷ left)
          (record { invalid_connections = front; conn = some c; left = left })

Scans-skip :
    (now : ℕ) (p : HttpConnectionPool) (c : ℕ) (l : List ℕ) (r : Scanned)
    → usable now p c ≡ false
    → Scans now p l r
    → Scans now p (c ∷ l) (record r { invalid_connections = c ∷ r.invalid_connections })
Scans-skip now p c l r h (nothing l' a) = nothing (c ∷ l') (h, a)
Scans-skip now p c l r h (first front left d a u) = first (c ∷ front) left d (h, a) u

pub scan-Scans : (now : ℕ) (p : HttpConnectionPool) (l : List ℕ) → Scans now p l (scan now p l)
unfolding scan
scan-Scans now p [] = nothing [] tt
scan-Scans now p (c ∷ l) =
    branch (Scans now p (c ∷ l)) (not (p.connections c).is_connected) _ _
      (λ h. Scans-skip now p c l _ (ground arith) (scan-Scans now p l))
      (λ h.
        branch (Scans now p (c ∷ l)) (is_too_old now p c) _ _
          (λ o. Scans-skip now p c l _ (ground arith) (scan-Scans now p l))
          (λ o. first [] l c tt (ground arith)))

-- What getConnection does with a pool of which `out` connections are handed out.
pub record Gets (now : ℕ) (connects : Option ℕ) (p : HttpConnectionPool) (out : ℕ) (r : Taken)
    : Type 0 where
  pub others : List ℕ
  -- The connections deleted are the first of the pool, and none can be used.
  pub in_order : p.conns ≡ r.deleted ++ others
  pub unusable : AllUnusable now p r.deleted
  -- It hands out the next one, or a new one if there is none.
  pub found :
      ((c : ℕ) × (r.conn ≡ some c) × (others ≡ c ∷ r.pool.conns) × (usable now p c ≡ true))
      ⊎ ((others ≡ []) × (r.pool.conns ≡ []) × (r.conn ≡ connects))
  pub counted :
      ((r.conn ≡ none) × (r.pool.total ≡ length r.pool.conns + out))
      ⊎ ((r.conn ≢ none) × (r.pool.total ≡ length r.pool.conns + (out + 1)))

-- The counter of a pool of which `out` connections are handed out.
pub record IsCounted (p : HttpConnectionPool) (out : ℕ) : Type 0 where
  pub counts : p.total ≡ length p.conns + out
  pub fits : p.total + 1 < 2 ^ 32

some-ne-none : {a : ℕ} → some a ≢ none
some-ne-none h = cc

hand_out-Gets :
    (now : ℕ) (connects : Option ℕ) (p : HttpConnectionPool) (out : ℕ) (l : List ℕ) (r : Scanned)
    → IsCounted p out
    → p.conns ≡ l
    → Scans now p l r
    → Gets now connects p out (hand_out now connects p r)
unfolding hand_out
hand_out-Gets now connects p out l r v e (first front left c a u) = record {
  others = c ∷ left;
  in_order = e;
  unusable = a;
  found = inl (c, refl, refl, u);
  counted =
      inr (
        some-ne-none,
        omega (arith, v.counts, v.fits, ap length e, length-append front (c ∷ left)),
      );
}
hand_out-Gets now none p out l r v e (nothing l' a) = record {
  others = [];
  in_order = e ∙ sym (append-nil l');
  unusable = a;
  found = inr (refl, refl, refl);
  counted = inl (refl, omega (arith, v.counts, v.fits, ap length e));
}
hand_out-Gets now (some b) p out l r v e (nothing l' a) = record {
  others = [];
  in_order = e ∙ sym (append-nil l');
  unusable = a;
  found = inr (refl, refl, refl);
  counted = inr (some-ne-none, omega (arith, v.counts, v.fits, ap length e));
}

-- On a pool whose m_total counts the connections in it and those handed out, getConnection
-- deletes the first connections of the pool, all closed or too old, and hands out the next, which
-- is open and not too old, leaving those behind it; only if there is none it empties the pool and
-- hands out a new connection, or null where none can be made. m_total counts the connections
-- again, with the one that is handed out.
pub get_connection-Gets :
    (now : ℕ) (connects : Option ℕ) (p : HttpConnectionPool) (out : ℕ)
    → IsCounted p out
    → Gets now connects p out (get_connection now connects p)
unfolding get_connection
get_connection-Gets now connects p out v =
    hand_out-Gets now connects p out p.conns (scan now p p.conns) v refl (scan-Scans now p p.conns)

-- A connection that is given back, of `out + 1` that are handed out.
pub record Released (now a : ℕ) (p : HttpConnectionPool) (out : ℕ) (r : Bool × HttpConnectionPool)
    : Type 0 where
  pub counts : r.1.total ≡ length r.1.conns + out
  pub kept : r.0 ≡ false → (r.1.conns ≡ p.conns ++ a ∷ []) × (usable now p a ≡ true)
  pub deleted :
      r.0 ≡ true
      → (r.1.conns ≡ p.conns)
        × ((usable now p a ≡ false) ⊎ (p.max_request ≤ ((p.connections a).request + 1) % 2 ^ 64))

-- On a pool whose m_total counts the connections in it and those handed out, a connection that is
-- given back goes to the end of the pool only if it is open and not too old, and is deleted only
-- if it is not or has served the last of its requests; m_total counts the connections again.
pub release_ptr-Released :
    (now a : ℕ) (p : HttpConnectionPool) (out : ℕ)
    → IsCounted p (out + 1)
    → Released now a p out (release_ptr now a p)
unfolding release_ptr
release_ptr-Released now a p out v =
    branch (Released now a p out)
      (not (p.connections a).is_connected
        || is_too_old now p a
        || leb p.max_request (((p.connections a).request + 1) % 2 ^ 64))
      _ _
      (λ h. record {
        counts = omega (arith, v.counts, v.fits);
        kept = λ x. cc;
        deleted = λ _. (refl, ground arith);
      })
      (λ h. record {
        counts = omega (arith, v.counts, length-append p.conns (a ∷ []));
        kept = λ _. (refl, ground arith);
        deleted = λ x. cc;
      })
