-- ===== src/Http/Receive.antt =====
-- HttpConnection::recvResponse and HttpSession::recvRequest (yuan/http/http_connection.cc,
-- yuan/http/http_session.cc). The parsers that Ragel generates are an interface, and so is read of
-- the stream. The bytes of `data` that are not parsed yet are a list; `offset` is its length.
pub mod Chunk
pub mod Ends
mod Tests
use cpp_linux_server_frame.Base.{
  ℕ, ◌||◌, replicate, zero, suc, ◌+◌, ◌-◌, ◌%◌, ◌^◌, ◌≤◌, ◌≡◌, Bool, true, false, ◌&&◌, not, List,
  [], ◌∷◌, ◌++◌, if◌then◌else◌, ltb, leb, ◌==◌, length, take, drop, min,
}
use cpp_linux_server_frame.Stream.{
  Got, bytes, read_fails, ReadOps, Ended, all_of, stopped, no_fuel, read_fix_size,
}
use cpp_linux_server_frame.Http.Cstring.{codes, strcasecmp_lt}

-- HttpRequestParser and HttpResponseParser, and reserve of std::string.
pub record Parser (P : Type 0) : Type 0 where
  pub new_parser : P
  -- execute(data, len) and execute(data, len, true): how many bytes they have parsed. The rest is
  -- moved to the front of `data`.
  pub execute : P → List ℕ → P × ℕ
  pub execute_chunk : P → List ℕ → P × ℕ
  pub has_error : P → Bool
  pub is_finished : P → Bool
  -- Of the generated parser of responses; content_len is an int, here as an unsigned one.
  pub chunked : P → Bool
  pub content_len : P → ℕ
  pub chunks_done : P → Bool
  -- getContentLength, and the header Connection.
  pub get_content_length : P → ℕ
  pub connection : P → List ℕ
  -- Whether reserve of a length succeeds; else it throws.
  pub can_reserve : ℕ → Bool

-- How the functions fail: null is returned, with the stream closed; std::string has thrown; or an int
-- overflows, for which C++ defines no behaviour.
pub data Failure : Type 0 where
  closed thrown overflowed : Failure

pub data Received (A : Type 0) : Type 0 where
  received : A → Received A
  failed : Failure → Received A
  out_of_fuel : Received A

-- strcasecmp(a, b) == 0
abbrev pub strcasecmp_eq : List ℕ → List ℕ → Bool
strcasecmp_eq a b = not (strcasecmp_lt a b) && not (strcasecmp_lt b a)

pub record Message (P : Type 0) : Type 0 where
  pub head : P
  pub body : List ℕ
  -- setClose(false) has been called.
  pub keeps_alive : Bool

module _ {S : Type 0} where
  abbrev pub and_then : {A B : Type 0} → Received A × S → (A → S → Received B × S) → Received B × S
  and_then (received a, s) f = f a s
  and_then (failed c, s) f = (failed c, s)
  and_then (out_of_fuel, s) f = (out_of_fuel, s)

  -- The separator "\r\n" is dropped.
  abbrev pub without_separator : Received (List ℕ) × S → Received (List ℕ × List ℕ) × S
  without_separator (received body, s) = (received (take (length body - 2) body, []), s)
  without_separator (failed c, s) = (failed c, s)
  without_separator (out_of_fuel, s) = (out_of_fuel, s)

  -- resize to the size less 2, which wraps round below 2 and then throws.
  abbrev pub cut_two : Received (List ℕ) × S → Received (List ℕ × List ℕ) × S
  cut_two (received body, s) =
      if ltb (length body) 2 then (failed thrown, s) else without_separator (received body, s)
  cut_two (failed c, s) = (failed c, s)
  cut_two (out_of_fuel, s) = (out_of_fuel, s)

  -- What readFixSize has read behind `front`; `unread` bytes of the body, which resize has set to
  -- zero, stay as they are.
  abbrev pub rest_of_body : List ℕ → ℕ → Ended (List ℕ) × S → Received (List ℕ) × S
  rest_of_body front unread (all_of xs, s) = (received (front ++ (xs ++ replicate unread 0)), s)
  rest_of_body front unread (stopped e, s) = (failed closed, s)
  rest_of_body front unread (no_fuel, s) = (out_of_fuel, s)

module _ {S P : Type 0} (ops : ReadOps S) (parser : Parser P) (buff_size : ℕ) where
  -- What follows execute in a round: the loop ends, or goes on with `more`.
  abbrev pub after_execute : P → List ℕ → S → Received (P × List ℕ) × S → Received (P × List ℕ) × S
  after_execute p rest s more =
      if parser.has_error p
      then (failed closed, s)
      else if length rest == buff_size
      then (failed closed, s)
      else if parser.is_finished p
      then (received (p, rest), s)
      else more

  -- The loop that reads the head of a message, or that of a chunk.
  unfoldable pub receive_head :
      (P → List ℕ → P × ℕ) → ℕ → S → P → List ℕ → Received (P × List ℕ) × S
  receive_head execute zero s p rest = (out_of_fuel, s)
  receive_head execute (suc fuel) s p rest =
      let (got, s') = ops.read s (buff_size - length rest) in
      elim got [
        | read_fails e ↦ (failed closed, s')
        | bytes x xs ↦
            let buffer = rest ++ (x ∷ xs) in
            let (p', parsed_len) = execute p buffer in
            let left = drop parsed_len buffer in
            after_execute p' left s' (receive_head execute fuel s' p' left)
      ]

  -- The loop over what is left of a chunk; each round reads a byte at least.
  unfoldable pub read_left : ℕ → S → ℕ → List ℕ → Received (List ℕ) × S
  read_left fuel s zero body = (received body, s)
  read_left zero s (suc left) body = (out_of_fuel, s)
  read_left (suc fuel) s (suc left) body =
      let (got, s') = ops.read s (min (suc left) buff_size) in
      elim got [
        | read_fails e ↦ (failed closed, s')
        | bytes x xs ↦ read_left fuel s' (left - length xs) (body ++ (x ∷ xs))
      ]

  -- A chunk whose length is negative. For -1, chunk_total_len is 1, and one byte is read if the
  -- buffer is empty; else append gets a length that is negative, and throws.
  unfoldable pub negative_chunk : ℕ → S → List ℕ → List ℕ → Received (List ℕ × List ℕ) × S
  negative_chunk chunk_len s rest body =
      if chunk_len == 2 ^ 32 - 1 && length rest == 0
      then cut_two (read_left 1 s 1 body)
      else (failed thrown, s)

  -- A chunk of `chunk_len` bytes and its "\r\n": the body with the chunk, and the bytes behind it.
  -- chunk_total_len is an int.
  unfoldable pub read_chunk : ℕ → S → List ℕ → List ℕ → Received (List ℕ × List ℕ) × S
  read_chunk chunk_len s rest body =
      if leb (2 ^ 31) chunk_len
      then negative_chunk chunk_len s rest body
      else if leb (2 ^ 31) (chunk_len + 2)
      then (failed overflowed, s)
      else if leb (chunk_len + 2) (length rest)
      then (received (body ++ take chunk_len rest, drop (chunk_len + 2) rest), s)
      else without_separator
          (read_left (chunk_len + 2 - length rest) s (chunk_len + 2 - length rest) (body ++ rest))

  -- The loop over the chunks. `fuel` bounds the reads of each loop.
  unfoldable pub receive_chunks : ℕ → S → P → List ℕ → List ℕ → Received (P × List ℕ) × S
  receive_chunks zero s p rest body = (out_of_fuel, s)
  receive_chunks (suc fuel) s p rest body =
      and_then (receive_head parser.execute_chunk (suc fuel) s p rest) (λ h s'.
        let (p', rest') = h in
        and_then (read_chunk (parser.content_len p') s' rest' body) (λ c s''.
          let (body', rest'') = c in
          if parser.chunks_done p'
          then (received (p', body'), s'')
          else receive_chunks fuel s'' p' rest'' body'))

  -- The `left` bytes of a body that are not in the buffer. readFixSize takes an int: of the number it
  -- gets the low 32 bits, and returns at once a number that is not positive.
  unfoldable pub read_rest : List ℕ → ℕ → S → Received (List ℕ) × S
  read_rest front left s =
      let len = left % 2 ^ 32 in
      if len == 0 || leb (2 ^ 31) len
      then (failed closed, s)
      else rest_of_body front (left - len) (read_fix_size ops s len)

  -- A body of Content-Length bytes: the uint64_t is taken for an int64_t.
  unfoldable pub read_body : ℕ → S → List ℕ → Received (List ℕ) × S
  read_body content_length s rest =
      if ltb 0 content_length && ltb content_length (2 ^ 63)
      then (if parser.can_reserve content_length
          then (let front = take (min content_length (length rest)) rest in
              if ltb (length front) content_length
              then read_rest front (content_length - length front) s
              else (received front, s))
          else (failed thrown, s))
      else (received [], s)

  -- recvResponse
  unfoldable pub recv_response : ℕ → S → Received (Message P) × S
  recv_response fuel s = and_then (receive_head parser.execute fuel s parser.new_parser []) (λ h s'.
      let (p, rest) = h in
      if parser.chunked p
      then and_then (receive_chunks fuel s' p rest [])
          (λ c s''. (received (record { head = c.0; body = c.1; keeps_alive = false }), s''))
      else and_then (read_body (parser.get_content_length p) s' rest)
          (λ body s''. (received (record { head = p; body = body; keeps_alive = false }), s'')))

  -- recvRequest
  unfoldable pub recv_request : ℕ → S → Received (Message P) × S
  recv_request fuel s = and_then (receive_head parser.execute fuel s parser.new_parser []) (λ h s'.
      let (p, rest) = h in
      and_then (read_body (parser.get_content_length p) s' rest) (λ body s''. (
        received (record {
          head = p;
          body = body;
          keeps_alive = strcasecmp_eq (parser.connection p) (codes "keep-alive");
        }),
        s'',
      )))
