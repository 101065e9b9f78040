-- ===== src/Http/Receive/Chunk.antt =====
-- A chunk that is received is what the peer has sent.
use cpp_linux_server_frame.Base.{
  ℕ, ◌^◌, zero, suc, ◌+◌, ◌-◌, ◌≤◌, ◌<◌, ◌≡◌, ◌⊎◌, inl, inr, refl, ap, sym, subst, ◌∙◌, List, [],
  ◌∷◌, ◌++◌, append_assoc, append-nil, leb, length, take, drop, min, branch, arith, length-append,
  length-take, length-drop, take-append-drop,
}
use cpp_linux_server_frame.Stream.{Got, bytes, read_fails, ReadOps}
use cpp_linux_server_frame.Http.Receive.{
  Received, received, failed, closed, overflowed, out_of_fuel, read_left, without_separator,
  read_chunk, Parser,
}

take_append : (n : ℕ) (xs ys : List ℕ) → take (length xs + n) (xs ++ ys) ≡ xs ++ take n ys
take_append n [] ys = ap (λ (k : ℕ). take k ys) (omega arith)
take_append n (x ∷ xs) ys =
    ap (λ (k : ℕ). take k (x ∷ (xs ++ ys))) (add_suc (length xs) n)
    ∙ ap (λ (l : List ℕ). x ∷ l) (take_append n xs ys)
  where
    add_suc : (a b : ℕ) → suc a + b ≡ suc (a + b)
    add_suc a b = omega arith

drop-nil : (n : ℕ) → drop {A = ℕ} n [] ≡ []
drop-nil zero = refl
drop-nil (suc n) = refl

drop-drop : (n m : ℕ) (xs : List ℕ) → drop m (drop n xs) ≡ drop (n + m) xs
drop-drop zero m xs = ap (λ (k : ℕ). drop k xs) (omega arith)
drop-drop (suc n) m [] = drop-nil m ∙ sym (drop-nil (suc n + m))
drop-drop (suc n) m (x ∷ xs) = drop-drop n m xs ∙ ap (λ (k : ℕ). drop k (x ∷ xs)) (add_suc n m)
  where
    add_suc : (a b : ℕ) → suc (a + b) ≡ suc a + b
    add_suc a b = omega arith

-- A list in three parts.
three_parts :
    (n m : ℕ) (xs ys : List ℕ)
    → xs ++ ys ≡ take n xs ++ (take m (drop n xs) ++ (drop (n + m) xs ++ ys))
three_parts n m xs ys =
    ap (λ (l : List ℕ). l ++ ys) (sym (take-append-drop n xs))
    ∙ append_assoc (take n xs) (drop n xs) ys
    ∙ ap (λ (l : List ℕ). take n xs ++ (l ++ ys)) (sym (take-append-drop m (drop n xs)))
    ∙ ap (λ (l : List ℕ). take n xs ++ l)
        (append_assoc (take m (drop n xs)) (drop m (drop n xs)) ys)
    ∙ ap (λ (l : List ℕ). take n xs ++ (take m (drop n xs) ++ (l ++ ys))) (drop-drop n m xs)

module _ {S P : Type 0} (ops : ReadOps S) (parser : Parser P) (buff_size : ℕ) where
  -- The loop that began at `s`, with `body` so far.
  abbrev pub LeftRead : S → ℕ → List ℕ → Received (List ℕ) × S → Type 0
  LeftRead s left body r =
      (r.0 ≡ failed closed)
      ⊎ ((xs : List ℕ) × (r.0 ≡ received (body ++ xs))
          × (length xs ≡ left)
          × (ops.content s ≡ xs ++ ops.content r.1))

  one_round :
      (s s' : S) (left x : ℕ) (xs body : List ℕ) (r : Received (List ℕ) × S)
      → suc (length xs) ≤ suc left
      → ops.content s ≡ x ∷ (xs ++ ops.content s')
      → LeftRead s' (left - length xs) (body ++ (x ∷ xs)) r
      → LeftRead s (suc left) body r
  one_round s s' left x xs body r fits law (inl stop) = inl stop
  one_round s s' left x xs body r fits law (inr (ys, e, n, c)) = inr (
    x ∷ (xs ++ ys),
    e ∙ ap received (append_assoc body (x ∷ xs) ys),
    omega (arith, length-append xs ys, n),
    law
        ∙ ap (λ (t : List ℕ). x ∷ (xs ++ t)) c
        ∙ ap (λ (t : List ℕ). x ∷ t) (sym (append_assoc xs ys (ops.content r.1))),
  )

  pub read_left-LeftRead :
      (fuel : ℕ) (s : S) (left : ℕ) (body : List ℕ)
      → left ≤ fuel
      → LeftRead s left body (read_left ops parser buff_size fuel s left body)
  unfolding read_left
  read_left-LeftRead fuel s zero body h = inr ([], ap received (sym (append-nil body)), refl, refl)
  read_left-LeftRead zero s (suc left) body h = absurd (omega arith)
  read_left-LeftRead (suc fuel) s (suc left) body h =
      go (λ s' xs b fits. read_left-LeftRead fuel s' (left - length xs) b fits)
        (ops.read s (min (suc left) buff_size)) refl
    where
      go :
          ((s' : S) (xs b : List ℕ)
            → left - length xs ≤ fuel
            → LeftRead s'
                (left - length xs)
                b
                (read_left ops parser buff_size fuel s' (left - length xs) b))
          → (r : Got × S) → ops.read s (min (suc left) buff_size) ≡ r
          → LeftRead s (suc left) body (read_left ops parser buff_size (suc fuel) s (suc left) body)
      go rest (read_fails e, s') eq = inl (rw (read_left, eq) refl)
      go rest (bytes x xs, s') eq =
          let (fits, law) = ops.read_at_most s (min (suc left) buff_size) x xs s' eq in
          let unrolled : read_left ops parser buff_size (suc fuel) s (suc left) body
              ≡ read_left ops parser buff_size fuel s' (left - length xs) (body ++ (x ∷ xs)) =
            rw (read_left, eq)
              (ap
                (λ (p : Got × S).
                  read_left ops parser buff_size fuel p.1 (left - length xs) (body ++ (x ∷ xs)))
                eq) in
          subst (LeftRead s (suc left) body) (sym unrolled) (
            one_round s s' left x xs body
              (read_left ops parser buff_size fuel s' (left - length xs) (body ++ (x ∷ xs)))
              (omega (arith, fits)) law (rest s' xs (body ++ (x ∷ xs)) (omega (arith, h))))

  -- What one chunk of `n` bytes and its separator leave of the bytes to come.
  unfoldable pub ChunkRead : ℕ → S → List ℕ → List ℕ → Received (List ℕ × List ℕ) × S → Type 0
  ChunkRead n s rest body r =
      ((2 ^ 31 ≤ n + 2) × (r.0 ≡ failed overflowed))
      ⊎ ((n + 2 < 2 ^ 31) × (r.0 ≡ failed closed))
      ⊎ ((chunk separator rest' : List ℕ) × (n + 2 < 2 ^ 31)
          × (r.0 ≡ received (body ++ chunk, rest'))
          × (length chunk ≡ n)
          × (length separator ≡ 2)
          × (rest ++ ops.content s ≡ chunk ++ (separator ++ (rest' ++ ops.content r.1)))
          × (length (ops.content r.1) ≤ length (ops.content s)))

  long_enough :
      (n : ℕ) (s : S) (rest body : List ℕ)
      → n + 2 < 2 ^ 31
      → n + 2 ≤ length rest
      → ChunkRead n s rest body (received (body ++ take n rest, drop (n + 2) rest), s)
  unfolding ChunkRead
  long_enough n s rest body fits h = inr (
      inr (
        take n rest,
        take 2 (drop n rest),
        drop (n + 2) rest,
        fits,
        refl,
        omega (arith, length-take n rest, h),
        omega (arith, length-take 2 (drop n rest), length-drop n rest, h),
        three_parts n 2 rest (ops.content s),
        omega arith,
      ))

  without_separator-stream : (r : Received (List ℕ) × S) → (without_separator r).1 ≡ r.1
  without_separator-stream (received b, s) = refl
  without_separator-stream (failed c, s) = refl
  without_separator-stream (out_of_fuel, s) = refl

  over_the_end :
      (n : ℕ) (s : S) (rest body : List ℕ) (r : Received (List ℕ) × S)
      → n + 2 < 2 ^ 31
      → length rest < n + 2
      → LeftRead s (n + 2 - length rest) (body ++ rest) r
      → ChunkRead n s rest body (without_separator r)
  unfolding ChunkRead
  over_the_end n s rest body r fits h (inl e) =
      inr (inl (fits, ap (λ (x : Received (List ℕ)). (without_separator (x, r.1)).0) e))
  over_the_end n s rest body r fits h (inr (xs, e, len, c)) = inr (
      inr (
        take n (rest ++ xs),
        drop n (rest ++ xs),
        [],
        fits,
        ap (λ (x : Received (List ℕ)). (without_separator (x, r.1)).0) e
            ∙ ap (λ (b : List ℕ). received (take (length b - 2) b, [])) (append_assoc body rest xs)
            ∙ ap (λ (k : ℕ). received (take k (body ++ (rest ++ xs)), []))
                (omega (arith, length-append body (rest ++ xs), length-append rest xs, len, h))
            ∙ ap (λ (b : List ℕ). received (b, [])) (take_append n body (rest ++ xs)),
        omega (arith, length-take n (rest ++ xs), length-append rest xs, len, h),
        omega (arith, length-drop n (rest ++ xs), length-append rest xs, len, h),
        ap (λ (l : List ℕ). rest ++ l) c
            ∙ sym (append_assoc rest xs (ops.content r.1))
            ∙ ap (λ (l : List ℕ). l ++ ops.content r.1) (sym (take-append-drop n (rest ++ xs)))
            ∙ append_assoc (take n (rest ++ xs)) (drop n (rest ++ xs)) (ops.content r.1)
            ∙ ap (λ (t : S). take n (rest ++ xs) ++ (drop n (rest ++ xs) ++ ops.content t))
                (sym (without_separator-stream r)),
        subst (λ (t : S). length (ops.content t) ≤ length (ops.content s))
            (sym (without_separator-stream r))
            (omega (arith, ap length c, length-append xs (ops.content r.1))),
      ))

  -- For a chunk of `n` bytes, `n` an int, however its bytes are spread over the buffer and the stream:
  -- where n + 2 is beyond an int, recvResponse overflows; else it closes the stream, or it has appended
  -- to the body exactly the next `n` bytes, dropped the two behind them, and kept all that follows in
  -- the buffer and the stream.
  pub read_chunk-ChunkRead :
      (n : ℕ) (s : S) (rest body : List ℕ)
      → n < 2 ^ 31
      → ChunkRead n s rest body (read_chunk ops parser buff_size n s rest body)
  unfolding read_chunk ChunkRead
  read_chunk-ChunkRead n s rest body int =
      branch (ChunkRead n s rest body) (leb (2 ^ 31) n) _ _ (λ h. absurd (ground arith))
        (λ _.
          branch (ChunkRead n s rest body) (leb (2 ^ 31) (n + 2)) _ _
            (λ h. inl (ground arith, refl))
            (λ small.
              branch (ChunkRead n s rest body) (leb (n + 2) (length rest)) _ _
                (λ h. long_enough n s rest body (ground arith) (ground arith))
                (λ h. over_the_end n s rest body _ (ground arith) (ground arith) (
                  read_left-LeftRead (n + 2 - length rest) s (n + 2 - length rest) (body ++ rest)
                    (omega arith)))))
