-- ===== src/Http/Receive/Tests.antt =====
-- Messages that are received, and the theorems at concrete inputs, with a parser whose heads are one
-- byte: 200 for a body in chunks, else the length of the body; a chunk's head is its length.
use cpp_linux_server_frame.Base.{ℕ, arith, ◌≡◌, refl, true, false, List, [], ◌∷◌, ◌==◌}
use cpp_linux_server_frame.Stream.{read_rounds, read_fix_size}
use cpp_linux_server_frame.Stream.OneByte.{reader}
use cpp_linux_server_frame.Http.Cstring.{codes, strcasecmp_lt, fold, lex_lt}
use cpp_linux_server_frame.Http.Receive.{
  Parser, received, receive_head, read_left, read_chunk, receive_chunks, read_body, read_rest,
  recv_response, recv_request,
}
use cpp_linux_server_frame.Http.Receive.Chunk.{ChunkRead, read_chunk-ChunkRead}
use cpp_linux_server_frame.Http.Receive.Ends.{Returns, recv-Returns}

abbrev parse_byte : ℕ → List ℕ → ℕ × ℕ
parse_byte p [] = (p, 0)
parse_byte p (x ∷ l) = (x, 1)

abbrev parser : Parser ℕ
parser = record {
  new_parser = 0;
  execute = parse_byte;
  execute_chunk = parse_byte;
  has_error = λ p. p == 255;
  is_finished = λ p. true;
  chunked = λ p. p == 200;
  content_len = λ p. p;
  chunks_done = λ p. p == 0;
  get_content_length = λ p. p;
  connection = λ p. codes "Keep-Alive";
  can_reserve = λ n. true;
}

-- Two chunks and the last.
abbrev chunks : List ℕ
chunks = 200 ∷ 2 ∷ 65 ∷ 66 ∷ 13 ∷ 10 ∷ 1 ∷ 67 ∷ 13 ∷ 10 ∷ 0 ∷ 13 ∷ 10 ∷ []

chunks_joined :
    (recv_response reader parser 16 14 chunks).0
    ≡ received (record { head = 0; body = 65 ∷ 66 ∷ 67 ∷ []; keeps_alive = false })
unfolding recv_response receive_head receive_chunks read_chunk read_left
chunks_joined = refl

request_received :
    (recv_request reader parser 16 5 (2 ∷ 65 ∷ 66 ∷ 67 ∷ []))
    ≡ (received (record { head = 2; body = 65 ∷ 66 ∷ []; keeps_alive = true }), 67 ∷ [])
unfolding recv_request receive_head read_body read_rest read_fix_size read_rounds strcasecmp_lt fold
    lex_lt
request_received = refl

-- The first byte of the chunk has been read with its head.
read_chunk-ChunkRead_example :
    ChunkRead reader parser 16 2
      (66 ∷ 13 ∷ 10 ∷ 0 ∷ [])
      (65 ∷ [])
      (9 ∷ [])
      (read_chunk reader parser 16 2 (66 ∷ 13 ∷ 10 ∷ 0 ∷ []) (65 ∷ []) (9 ∷ []))
read_chunk-ChunkRead_example =
    read_chunk-ChunkRead reader parser 16 2 (66 ∷ 13 ∷ 10 ∷ 0 ∷ []) (65 ∷ []) (9 ∷ []) (omega arith)

recv-Returns_example :
    Returns reader parser 16 13 (recv_response reader parser 16 14 chunks)
    × Returns reader parser 16 13 (recv_request reader parser 16 14 chunks)
recv-Returns_example = recv-Returns reader parser 16 chunks
