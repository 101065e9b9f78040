-- ===== src/Http/Receive/Ends.antt =====
-- The loops of recvResponse and recvRequest end on every stream of finitely many bytes.
use cpp_linux_server_frame.Base.{
  ℕ, true, ◌+◌, ◌%◌, ◌||◌, false, replicate, min, take, leb, zero, suc, ◌-◌, ◌^◌, ◌≤◌, ◌<◌, ◌≡◌,
  ◌⊎◌, inl, inr, refl, ap, sym, subst, ◌&&◌, List, [], ◌∷◌, ◌++◌, ltb, ◌==◌, length, drop,
  Bool-cases, branch, arith, length-append,
}
use cpp_linux_server_frame.Stream.Laws.{ReadsAll, read_fix_size-ReadsAll}
use cpp_linux_server_frame.Stream.{Ended, all_of, stopped, no_fuel, Got, bytes, read_fails, ReadOps}
use cpp_linux_server_frame.Http.Receive.{
  Failure, closed, thrown, overflowed, failed, rest_of_body, read_rest, cut_two, negative_chunk,
  Received, received, Parser, after_execute, receive_head, read_chunk, and_then, receive_chunks,
  read_body, recv_response, recv_request,
}
use cpp_linux_server_frame.Http.Receive.Chunk.{
  LeftRead, read_left-LeftRead, ChunkRead, read_chunk-ChunkRead,
}

module _ {S P : Type 0} (ops : ReadOps S) (parser : Parser P) (buff_size : ℕ) where
  abbrev pub left : S → ℕ
  left s = length (ops.content s)

  -- A failure has a reason: std::string throws where reserve does for some length, or where the
  -- parser has a chunk of negative length; an int overflows where it has one near the largest int.
  abbrev pub Excused : Failure → Type 0
  Excused closed = Unit {0}
  Excused thrown =
      ((n : ℕ) × (parser.can_reserve n ≡ false)) ⊎ ((p : P) × (2 ^ 31 ≤ parser.content_len p))
  Excused overflowed =
      (p : P) × (parser.content_len p < 2 ^ 31) × (2 ^ 31 ≤ parser.content_len p + 2)

  -- The function has returned a value, and fewer than `n` bytes are left, or it has failed.
  abbrev pub Returns : {A : Type 0} → ℕ → Received A × S → Type 0
  Returns {A = A} n r =
      ((c : Failure) × (r.0 ≡ failed c) × Excused c)
      ⊎ ((a : A) × (r.0 ≡ received a) × (left r.1 < n))

  at_most : {A : Type 0} (m n : ℕ) (r : Received A × S) → m ≤ n → Returns m r → Returns n r
  at_most m n r h (inl e) = inl e
  at_most m n r h (inr (a, e, l)) = inr (a, e, omega (arith, l, h))

  and_then-Returns :
      {A B : Type 0} (n : ℕ) (r : Received A × S) (f : A → S → Received B × S)
      → Returns n r
      → ((a : A) (s : S) → left s < n → Returns n (f a s))
      → Returns n (and_then r f)
  and_then-Returns n r f (inl (c, e, why)) k = inl (c, ap (λ x. (and_then (x, r.1) f).0) e, why)
  and_then-Returns n r f (inr (a, e, l)) k =
      subst (Returns n) (sym (ap (λ x. and_then (x, r.1) f) e)) (k a r.1 l)

  after_execute-Returns :
      (n : ℕ) (p : P) (rest : List ℕ) (s : S) (more : Received (P × List ℕ) × S)
      → left s < n
      → Returns n more
      → Returns n (after_execute ops parser buff_size p rest s more)
  after_execute-Returns n p rest s more h r =
      branch (Returns n) (parser.has_error p) _ _ (λ _. inl (closed, refl, tt))
        (λ _.
          branch (Returns n) (length rest == buff_size) _ _ (λ _. inl (closed, refl, tt))
            (λ _.
              branch (Returns n) (parser.is_finished p) _ _ (λ _. inr ((p, rest), refl, h))
                (λ _. r)))

  receive_head-Returns :
      (execute : P → List ℕ → P × ℕ) (fuel : ℕ) (s : S) (p : P) (rest : List ℕ)
      → left s < fuel
      → Returns (left s) (receive_head ops parser buff_size execute fuel s p rest)
  unfolding receive_head
  receive_head-Returns execute zero s p rest h = absurd (omega arith)
  receive_head-Returns execute (suc fuel) s p rest h =
      go (λ t q l less. receive_head-Returns execute fuel t q l less)
        (ops.read s (buff_size - length rest)) refl
    where
      go :
          ((t : S) (q : P) (l : List ℕ)
            → left t < fuel
            → Returns (left t) (receive_head ops parser buff_size execute fuel t q l))
          → (r : Got × S) → ops.read s (buff_size - length rest) ≡ r
          → Returns (left s) (receive_head ops parser buff_size execute (suc fuel) s p rest)
      go more (read_fails e, s') eq = inl (closed, rw (receive_head, eq) refl, tt)
      go more (bytes x xs, s') eq =
          let (fits, law) = ops.read_at_most s (buff_size - length rest) x xs s' eq in
          let shorter : left s' < left s =
            omega (arith, ap length law, length-append xs (ops.content s')) in
          let (q, parsed_len) = execute p (rest ++ (x ∷ xs)) in
          let l = drop parsed_len (rest ++ (x ∷ xs)) in
          let unrolled : receive_head ops parser buff_size execute (suc fuel) s p rest
              ≡ after_execute ops parser buff_size q l s'
                  (receive_head ops parser buff_size execute fuel s' q l) =
            rw (receive_head, eq)
              (ap
                (λ (r : Got × S).
                  after_execute ops parser buff_size q l r.1
                    (receive_head ops parser buff_size execute fuel r.1 q l))
                eq) in
          subst (Returns (left s)) (sym unrolled) (
            after_execute-Returns (left s) q l s' _ shorter (
              at_most (left s') (left s) _ (omega (arith, shorter))
                (more s' q l (omega (arith, shorter, h)))))

  cut_two-received :
      (n : ℕ) (p : P) (s : S) (b : List ℕ)
      → 2 ^ 31 ≤ parser.content_len p
      → left s < n
      → Returns n (cut_two (received b, s))
  cut_two-received n p s b neg h =
      branch (Returns n) (ltb (length b) 2) _ _ (λ _. inl (thrown, refl, inr (p, neg)))
        (λ _. inr (_, refl, h))

  cut_two-Returns :
      (n : ℕ) (p : P) (s : S) (body : List ℕ) (r : Received (List ℕ) × S)
      → 2 ^ 31 ≤ parser.content_len p
      → left s < n
      → LeftRead ops parser buff_size s 1 body r
      → Returns n (cut_two r)
  cut_two-Returns n p s body r neg h (inl e) =
      inl (closed, ap (λ (x : Received (List ℕ)). (cut_two (x, r.1)).0) e, tt)
  cut_two-Returns n p s body r neg h (inr (xs, e, len, c)) =
      subst (λ (x : Received (List ℕ)). Returns n (cut_two (x, r.1))) (sym e)
        (cut_two-received n p r.1 (body ++ xs) neg
          (omega (arith, ap length c, length-append xs (ops.content r.1), h)))

  negative_chunk-Returns :
      (p : P) (n : ℕ) (s : S) (rest body : List ℕ)
      → 2 ^ 31 ≤ parser.content_len p
      → left s < n
      → Returns n (negative_chunk ops parser buff_size (parser.content_len p) s rest body)
  unfolding negative_chunk
  negative_chunk-Returns p n s rest body neg h =
      branch (Returns n) (parser.content_len p == 2 ^ 32 - 1 && length rest == 0) _ _
        (λ _.
          cut_two-Returns n p s body _ neg h
            (read_left-LeftRead ops parser buff_size 1 s 1 body (omega arith)))
        (λ _. inl (thrown, refl, inr (p, neg)))

  int_chunk-Returns :
      (p : P) (n : ℕ) (s : S) (rest body : List ℕ) (r : Received (List ℕ × List ℕ) × S)
      → parser.content_len p < 2 ^ 31
      → left s < n
      → ChunkRead ops parser buff_size (parser.content_len p) s rest body r
      → Returns n r
  unfolding ChunkRead
  int_chunk-Returns p n s rest body r int h (inl over) = inl (overflowed, over.1, (p, int, over.0))
  int_chunk-Returns p n s rest body r int h (inr (inl end)) = inl (closed, end.1, tt)
  int_chunk-Returns p n s rest body r int h (inr (inr c)) =
      let (chunk, separator, rest', fits, e, len, two, bytes', less) = c in
      inr ((body ++ chunk, rest'), e, omega (arith, less, h))

  negative_lem :
      (k : ℕ) (s : S) (rest body : List ℕ)
      → leb (2 ^ 31) k ≡ true
      → read_chunk ops parser buff_size k s rest body
        ≡ negative_chunk ops parser buff_size k s rest body
  unfolding read_chunk
  negative_lem k s rest body h = rw h refl

  chunk-Returns :
      (p : P) (n : ℕ) (s : S) (rest body : List ℕ)
      → left s < n
      → Returns n (read_chunk ops parser buff_size (parser.content_len p) s rest body)
  chunk-Returns p n s rest body h = elim (Bool-cases (leb (2 ^ 31) (parser.content_len p))) [
    | inl neg ↦
        subst (Returns n) (sym (negative_lem (parser.content_len p) s rest body neg))
          (negative_chunk-Returns p n s rest body (ground arith) h)
    | inr int ↦ int_chunk-Returns p n s rest body _ (ground arith) h (
        read_chunk-ChunkRead ops parser buff_size (parser.content_len p) s rest body (ground arith))
  ]

  receive_chunks-Returns :
      (fuel : ℕ) (s : S) (p : P) (rest body : List ℕ)
      → left s < fuel
      → Returns (left s) (receive_chunks ops parser buff_size fuel s p rest body)
  unfolding receive_chunks
  receive_chunks-Returns zero s p rest body h = absurd (omega arith)
  receive_chunks-Returns (suc fuel) s p rest body h =
      and_then-Returns (left s) _ _
        (receive_head-Returns parser.execute_chunk (suc fuel) s p rest h)
        (λ a s' less.
          and_then-Returns (left s) _ _ (chunk-Returns a.0 (left s) s' a.1 body less)
            (λ c s'' less'.
              branch (Returns (left s)) (parser.chunks_done a.0) _ _
                (λ _. inr ((a.0, c.0), refl, less'))
                (λ _.
                  at_most (left s'') (left s) _ (omega (arith, less'))
                    (receive_chunks-Returns fuel s'' a.0 c.1 c.0 (omega (arith, less', h))))))

  same_stream :
      (front xs : List ℕ) (k : ℕ) (x : Ended (List ℕ)) (s : S)
      → x ≡ all_of xs
      → s ≡ (rest_of_body front k (x, s)).1
  same_stream front xs k (all_of ys) s e = refl
  same_stream front xs k (stopped i) s e = refl
  same_stream front xs k no_fuel s e = refl

  rest_of_body-Returns :
      (n m k : ℕ) (s : S) (front : List ℕ) (r : Ended (List ℕ) × S)
      → left s < n
      → ReadsAll ops s m [] r
      → Returns n (rest_of_body front k r)
  rest_of_body-Returns n m k s front r h (inl (e, eq)) =
      inl (closed, ap (λ (x : Ended (List ℕ)). (rest_of_body front k (x, r.1)).0) eq, tt)
  rest_of_body-Returns n m k s front r h (inr (xs, eq, len, c)) = inr (
    front ++ (xs ++ replicate k 0),
    ap (λ (x : Ended (List ℕ)). (rest_of_body front k (x, r.1)).0) eq,
    subst (λ (t : S). left t < n) (same_stream front xs k r.0 r.1 eq)
        (omega (arith, ap length c, length-append xs (ops.content r.1), h)),
  )

  read_rest-Returns :
      (n l : ℕ) (s : S) (front : List ℕ)
      → left s < n
      → Returns n (read_rest ops parser buff_size front l s)
  unfolding read_rest
  read_rest-Returns n l s front h =
      branch (Returns n) (l % 2 ^ 32 == 0 || leb (2 ^ 31) (l % 2 ^ 32)) _ _
        (λ _. inl (closed, refl, tt))
        (λ _.
          rest_of_body-Returns n _ (l - l % 2 ^ 32) s front _ h
            (read_fix_size-ReadsAll ops s (l % 2 ^ 32)))

  read_body-Returns :
      (k n : ℕ) (s : S) (rest : List ℕ)
      → left s < n
      → Returns n (read_body ops parser buff_size k s rest)
  unfolding read_body
  read_body-Returns k n s rest h =
      branch (Returns n) (ltb 0 k && ltb k (2 ^ 63)) _ _
        (λ _.
          branch (Returns n) (parser.can_reserve k) _ _
            (λ _.
              branch (Returns n) (ltb (length (take (min k (length rest)) rest)) k) _ _
                (λ _. read_rest-Returns n _ s (take (min k (length rest)) rest) h)
                (λ _. inr (take (min k (length rest)) rest, refl, h)))
            (λ no. inl (thrown, refl, inl (k, no))))
        (λ _. inr ([], refl, h))

  -- Over every stream of finitely many bytes and every parser, recvResponse and recvRequest end: with
  -- one more round of fuel for each loop than bytes are to come, each returns a message, with fewer
  -- bytes to come than before; or it returns null with the stream closed; or std::string throws, where
  -- reserve does so for some length or the parser has a chunk of negative length; or an int overflows,
  -- where the parser has a chunk whose length is an int and 2 more is not.
  pub recv-Returns :
      (s : S)
      → Returns (left s) (recv_response ops parser buff_size (suc (left s)) s)
        × Returns (left s) (recv_request ops parser buff_size (suc (left s)) s)
  unfolding recv_response recv_request
  recv-Returns s = (
    and_then-Returns (left s) _ _
        (receive_head-Returns parser.execute (suc (left s)) s parser.new_parser [] (omega arith))
        (λ h s' less.
          branch (Returns (left s)) (parser.chunked h.0) _ _
            (λ _.
              and_then-Returns (left s) _ _
                (at_most (left s') (left s) _ (omega (arith, less))
                  (receive_chunks-Returns (suc (left s)) s' h.0 h.1 [] (omega (arith, less))))
                (λ c s'' less'. inr (_, refl, less')))
            (λ _.
              and_then-Returns (left s) _ _
                (read_body-Returns (parser.get_content_length h.0) (left s) s' h.1 less)
                (λ body s'' less'. inr (_, refl, less')))),
    and_then-Returns (left s) _ _
        (receive_head-Returns parser.execute (suc (left s)) s parser.new_parser [] (omega arith))
        (λ h s' less.
          and_then-Returns (left s) _ _
            (read_body-Returns (parser.get_content_length h.0) (left s) s' h.1 less)
            (λ body s'' less'. inr (_, refl, less'))),
  )
