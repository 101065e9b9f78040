-- ===== src/FdManager/Laws.antt =====
-- What FdManager::get and del do to the table.
use cpp_linux_server_frame.Base.{
  ℕ, zero, suc, ◌-◌, ◌*◌, ◌/◌, ◌≤◌, ◌<◌, ◌≡◌, refl, sym, subst, ◌⊎◌, inl, inr, Bool, true, false,
  List, [], ◌∷◌, Option, none, some, ltb, lt→ltb, length, get_elem?, set, take, replicate,
  Bool-cases, Option-cases, arith, length-set, get_elem?-set_self, length-append, length-take,
  length-replicate,
}
use cpp_linux_server_frame.FdManager.{
  FdCtx, Answer, answer, resized, del, new_fd_ctx, store_new, get,
}

-- A context for `fd` that stands in the table.
pub record Found (fd : ℕ) (r : Answer (Option FdCtx × List (Option FdCtx))) : Type 0 where
  pub context : FdCtx
  pub datas : List (Option FdCtx)
  pub returns : r ≡ answer (some context, datas)
  pub stored : get_elem? datas fd ≡ some (some context)
  pub started : 64 ≤ length datas

length-resized : (d : List (Option FdCtx)) (size : ℕ) → length (resized d size) ≡ size
length-resized d size =
    let null : Option FdCtx = none in
    omega (
      arith,
      length-append (take size d) (replicate (size - length d) null),
      length-take size d,
      length-replicate (size - length d) null,
    )

beyond : {A : Type 0} (d : List A) (k : ℕ) → get_elem? d k ≡ none → length d ≤ k
beyond [] k e = omega arith
beyond (x ∷ d) zero e = cc
beyond (x ∷ d) (suc k) e = omega (arith, beyond d k e)

inside : {A : Type 0} (d : List A) (k : ℕ) (a : A) → get_elem? d k ≡ some a → k < length d
inside [] k a e = cc
inside (x ∷ d) zero a e = omega arith
inside (x ∷ d) (suc k) a e = omega (arith, inside d k a e)

deleted :
    (d : List (Option FdCtx)) (fd : ℕ)
    → (get_elem? (del d fd) fd ≡ none) ⊎ (get_elem? (del d fd) fd ≡ some none)
unfolding del
deleted d fd = elim (Bool-cases (ltb fd (length d))) [
  | inl h ↦ inr (rw h (get_elem?-set_self d fd none (ground arith)))
  | inr h ↦ elim (Option-cases (get_elem? d fd)) [
    | inl e ↦ inl (rw h e)
    | inr (a, e) ↦ absurd (omega (arith, inside d fd a e, far h))
  ]
]
  where
    far : ltb fd (length d) ≡ false → length d ≤ fd
    far h = ground arith

module _ (fstat : ℕ → Option Bool) where
  store_new-Found :
      (d : List (Option FdCtx)) (fd : ℕ)
      → fd < length d
      → 64 ≤ length d
      → Found fd (store_new fstat d fd)
  store_new-Found d fd h s = record {
    context = new_fd_ctx fstat fd;
    datas = set d fd (some (new_fd_ctx fstat fd));
    returns = rw (lt→ltb fd (length d) h) refl;
    stored = get_elem?-set_self d fd (some (new_fd_ctx fstat fd)) h;
    started = omega (arith, length-set d fd (some (new_fd_ctx fstat fd)));
  }

  -- On a table of at least 64 entries, get with auto_create always finds or makes a context for a
  -- descriptor: it returns a context that stands in the table under the descriptor afterwards,
  -- without an index beyond the table, and the table still has 64 entries at least.
  pub get-Found :
      (d : List (Option FdCtx)) (fd : ℕ) → 64 ≤ length d → Found fd (get fstat d (some fd) true)
  unfolding get
  get-Found d fd s = elim (Option-cases (get_elem? d fd)) [
    | inl e ↦
        let far = beyond d fd e in
        let grows = length-resized d (fd * 3 / 2) in
        subst (Found fd) (sym (rw (get, e) refl))
          (store_new-Found (resized d (fd * 3 / 2)) fd (omega arith) (omega arith))
    | inr (none, e) ↦
        subst (Found fd) (sym (rw (get, e) refl)) (store_new-Found d fd (inside d fd none e) s)
    | inr (some c, e) ↦ record {
      context = c;
      datas = d;
      returns = rw (get, e) refl;
      stored = e;
      started = s;
    }
  ]

  -- After del of a descriptor, get without auto_create returns null for it and leaves the table
  -- as it is, whether or not the descriptor was in the table.
  pub get-del :
      (d : List (Option FdCtx)) (fd : ℕ)
      → get fstat (del d fd) (some fd) false ≡ answer (none, del d fd)
  unfolding get
  get-del d fd = elim (deleted d fd) [ inl e ↦ rw (get, e) refl | inr e ↦ rw (get, e) refl ]
