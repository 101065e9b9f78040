-- ===== src/Http/Server/Tests.antt =====
-- A connection with two requests, and the theorem at a concrete input. A request is one byte, the
-- length of its body; a stream is what is to come and what has been written.
use cpp_linux_server_frame.Base.{ℕ, ◌≡◌, ap, refl, true, List, [], ◌∷◌, none, some, ◌==◌, arith}
use cpp_linux_server_frame.Stream.{
  Got, ReadOps, Put, WriteOps, write_rounds, write_fix_size, read_rounds, read_fix_size,
}
use cpp_linux_server_frame.Stream.OneByte.{take_one, put_one, take_one_lem, put_one_lem}
use cpp_linux_server_frame.Http.Cstring.{codes, strcasecmp_lt, fold, lex_lt}
use cpp_linux_server_frame.Http.Receive.{Parser, receive_head, read_body, read_rest, recv_request}
use cpp_linux_server_frame.Http.Servlet.{
  string_eq, handle, get_matched_servlet, get_servlet, first_servlet,
}
use cpp_linux_server_frame.Http.Server.{HttpServer, send_response, handle_client}
use cpp_linux_server_frame.Http.Server.Laws.{Talks, handle_client-Talks}

abbrev parse_byte : ℕ → List ℕ → ℕ × ℕ
parse_byte p [] = (p, 0)
parse_byte p (x ∷ l) = (x, 1)

abbrev parser : Parser ℕ
parser = record {
  new_parser = 0;
  execute = parse_byte;
  execute_chunk = parse_byte;
  has_error = λ p. p == 255;
  is_finished = λ p. true;
  chunked = λ p. p == 200;
  content_len = λ p. p;
  chunks_done = λ p. p == 0;
  get_content_length = λ p. p;
  connection = λ p. codes "Keep-Alive";
  can_reserve = λ n. true;
}

abbrev Duplex : Type 0
Duplex = List ℕ × List ℕ

abbrev reads : ReadOps Duplex
reads = record {
  read = λ s n. ((take_one s.0 n).0, ((take_one s.0 n).1, s.1));
  content = λ s. s.0;
  read_at_most =
      λ s n x xs s' e. take_one_lem s.0 n x xs s'.0 (ap (λ (p : Got × Duplex). (p.0, p.1.0)) e);
}

abbrev writes : WriteOps Duplex
writes = record {
  write = λ s buffer. ((put_one s.1 buffer).0, (s.0, (put_one s.1 buffer).1));
  sent = λ s. s.1;
  write_at_most =
      λ s buffer k s' e. put_one_lem s.1 buffer k s'.1 (ap (λ (p : Put × Duplex). (p.0, p.1.1)) e);
}

-- A response is its text; the one servlet puts its number in front.
abbrev server : HttpServer Duplex ℕ ℕ (List ℕ)
server = record {
  is_keep_alive = true;
  dispatch = record { datas = (codes "/", some 7) ∷ []; globs = []; default = none };
  new_response = λ m b. [];
  to_string = λ r. r;
  path = λ m. codes "/";
  run = λ c r. (r.0, c ∷ r.1, r.2);
  fnmatch = string_eq;
}

-- A request with a body of two bytes, and one without a body.
abbrev stream : Duplex
stream = (2 ∷ 65 ∷ 66 ∷ 0 ∷ [], [])

answers_both : (handle_client reads writes parser 16 server 5 stream).stream ≡ ([], 7 ∷ 7 ∷ [])
unfolding handle_client recv_request receive_head read_body read_rest read_fix_size read_rounds
    strcasecmp_lt lex_lt fold send_response write_fix_size write_rounds handle get_matched_servlet
    get_servlet first_servlet string_eq
answers_both = refl

handle_client-Talks_example :
    Talks reads writes parser 16 server stream
      (handle_client reads writes parser 16 server 5 stream)
handle_client-Talks_example =
    handle_client-Talks reads writes parser 16 server (λ s buffer. omega arith)
      (λ m c r s. omega arith) stream
