-- ===== src/Stream/Laws.antt =====
-- readFixSize and writeFixSize move all bytes or stop where read or write fails.
use cpp_linux_server_frame.Base.{
  ℕ, zero, suc, ◌-◌, ◌≤◌, ◌≡◌, refl, ap, sym, subst, ◌∙◌, ◌⊎◌, inl, inr, List, [], ◌∷◌, ◌++◌,
  length, take, drop, length-append, length-drop, take-append-drop, append_assoc, append-nil, arith,
}
use cpp_linux_server_frame.Stream.{
  Got, bytes, read_fails, Put, wrote, write_fails, ReadOps, WriteOps, Ended, all_of, stopped,
  read_rounds, read_fix_size, write_rounds, write_fix_size,
}

module _ {S : Type 0} (ops : ReadOps S) where
  -- The loop that began at `s` with `buffer` read already.
  abbrev pub ReadsAll : S → ℕ → List ℕ → Ended (List ℕ) × S → Type 0
  ReadsAll s left buffer r =
      ((e : ℕ) × (r.0 ≡ stopped e))
      ⊎ ((xs : List ℕ) × (r.0 ≡ all_of (buffer ++ xs))
          × (length xs ≡ left)
          × (ops.content s ≡ xs ++ ops.content r.1))

  -- One more round in front.
  one_round :
      (s s' : S) (left : ℕ) (x : ℕ) (xs buffer : List ℕ) (r : Ended (List ℕ) × S)
      → suc (length xs) ≤ suc left
      → ops.content s ≡ x ∷ (xs ++ ops.content s')
      → ReadsAll s' (left - length xs) (buffer ++ (x ∷ xs)) r
      → ReadsAll s (suc left) buffer r
  one_round s s' left x xs buffer r fits law (inl stop) = inl stop
  one_round s s' left x xs buffer r fits law (inr (ys, e, n, c)) = inr (
    x ∷ (xs ++ ys),
    e ∙ ap all_of (append_assoc buffer (x ∷ xs) ys),
    omega (arith, length-append xs ys, n),
    law
        ∙ ap (λ (t : List ℕ). x ∷ (xs ++ t)) c
        ∙ ap (λ (t : List ℕ). x ∷ t) (sym (append_assoc xs ys (ops.content r.1))),
  )

  read_rounds-ReadsAll :
      (fuel : ℕ) (s : S) (left : ℕ) (buffer : List ℕ)
      → left ≤ fuel
      → ReadsAll s left buffer (read_rounds ops fuel s left buffer)
  unfolding read_rounds
  read_rounds-ReadsAll fuel s zero buffer h =
      inr ([], ap all_of (sym (append-nil buffer)), refl, refl)
  read_rounds-ReadsAll zero s (suc left) buffer h = absurd (omega arith)
  read_rounds-ReadsAll (suc fuel) s (suc left) buffer h =
      go (λ s' xs b fits. read_rounds-ReadsAll fuel s' (left - length xs) b fits)
        (ops.read s (suc left)) refl
    where
      go :
          ((s' : S) (xs b : List ℕ)
            → left - length xs ≤ fuel
            → ReadsAll s' (left - length xs) b (read_rounds ops fuel s' (left - length xs) b))
          → (r : Got × S) → ops.read s (suc left) ≡ r
          → ReadsAll s (suc left) buffer (read_rounds ops (suc fuel) s (suc left) buffer)
      go rest (read_fails e, s') eq = inl (e, rw (read_rounds, eq) refl)
      go rest (bytes x xs, s') eq =
          let (fits, law) = ops.read_at_most s (suc left) x xs s' eq in
          let unrolled : read_rounds ops (suc fuel) s (suc left) buffer
              ≡ read_rounds ops fuel s' (left - length xs) (buffer ++ (x ∷ xs)) =
            rw (read_rounds, eq)
              (ap
                (λ (p : Got × S). read_rounds ops fuel p.1 (left - length xs) (buffer ++ (x ∷ xs)))
                eq) in
          subst (ReadsAll s (suc left) buffer) (sym unrolled) (
            one_round s s' left x xs buffer _ fits law
              (rest s' xs (buffer ++ (x ∷ xs)) (omega arith)))

  -- Over every stream whose read returns at most the bytes asked for, and the next ones,
  -- readFixSize ends: it returns the failed value of read, or it has put exactly `n` bytes into
  -- the buffer, which are the next `n` bytes of the stream.
  pub read_fix_size-ReadsAll : (s : S) (n : ℕ) → ReadsAll s n [] (read_fix_size ops s n)
  unfolding read_fix_size
  read_fix_size-ReadsAll s n = read_rounds-ReadsAll n s n [] (omega arith)

module _ {S : Type 0} (ops : WriteOps S) where
  abbrev pub WritesAll : S → List ℕ → Ended (Unit {0}) × S → Type 0
  WritesAll s buffer r =
      ((e : ℕ) × (r.0 ≡ stopped e)) ⊎ ((r.0 ≡ all_of tt) × (ops.sent r.1 ≡ ops.sent s ++ buffer))

  one_write :
      (s s' : S) (k : ℕ) (x : ℕ) (buffer : List ℕ) (r : Ended (Unit {0}) × S)
      → ops.sent s' ≡ ops.sent s ++ (x ∷ take k buffer)
      → WritesAll s' (drop k buffer) r
      → WritesAll s (x ∷ buffer) r
  one_write s s' k x buffer r law (inl stop) = inl stop
  one_write s s' k x buffer r law (inr (e, w)) = inr (
    e,
    w
        ∙ ap (λ (t : List ℕ). t ++ drop k buffer) law
        ∙ append_assoc (ops.sent s) (x ∷ take k buffer) (drop k buffer)
        ∙ ap (λ (t : List ℕ). ops.sent s ++ (x ∷ t)) (take-append-drop k buffer),
  )

  write_rounds-WritesAll :
      (fuel : ℕ) (s : S) (buffer : List ℕ)
      → length buffer ≤ fuel
      → WritesAll s buffer (write_rounds ops fuel s buffer)
  unfolding write_rounds
  write_rounds-WritesAll fuel s [] h = inr (refl, sym (append-nil (ops.sent s)))
  write_rounds-WritesAll zero s (x ∷ buffer) h = absurd (omega arith)
  write_rounds-WritesAll (suc fuel) s (x ∷ buffer) h =
      go (λ s' b fits. write_rounds-WritesAll fuel s' b fits) (ops.write s (x ∷ buffer)) refl
    where
      go :
          ((s' : S) (b : List ℕ) → length b ≤ fuel → WritesAll s' b (write_rounds ops fuel s' b))
          → (r : Put × S) → ops.write s (x ∷ buffer) ≡ r
          → WritesAll s (x ∷ buffer) (write_rounds ops (suc fuel) s (x ∷ buffer))
      go rest (write_fails e, s') eq = inl (e, rw (write_rounds, eq) refl)
      go rest (wrote k, s') eq =
          let (fits, law) = ops.write_at_most s (x ∷ buffer) k s' eq in
          let unrolled : write_rounds ops (suc fuel) s (x ∷ buffer)
              ≡ write_rounds ops fuel s' (drop k buffer) =
            rw (write_rounds, eq)
              (ap (λ (p : Put × S). write_rounds ops fuel p.1 (drop k buffer)) eq) in
          subst (WritesAll s (x ∷ buffer)) (sym unrolled) (
            one_write s s' k x buffer _ law
              (rest s' (drop k buffer) (omega (arith, length-drop k buffer))))

  -- Over every stream whose write takes a non-empty beginning of what it is given or fails,
  -- writeFixSize ends: it returns the failed value of write, or all bytes of the buffer have been
  -- written in order behind those before.
  write_fix_size-WritesAll :
      (s : S) (buffer : List ℕ) → WritesAll s buffer (write_fix_size ops s buffer)
  unfolding write_fix_size
  write_fix_size-WritesAll s buffer = write_rounds-WritesAll (length buffer) s buffer (omega arith)
