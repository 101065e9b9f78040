-- ===== src/Http/Server.antt =====
-- HttpServer::handleClient (yuan/http/http_server.cc) over recvRequest, ServletDispatch::handle and
-- sendResponse. The client's stream is both read and written; the constructor of HttpResponse, its
-- toString and the servlets are parameters.
pub mod Laws
mod Tests
use cpp_linux_server_frame.Base.{
  ℕ, ◌%◌, ◌^◌, leb, take, zero, suc, Bool, true, false, ◌||◌, not, List, [], ◌∷◌, length,
  if◌then◌else◌,
}
use cpp_linux_server_frame.Stream.{ReadOps, WriteOps, write_fix_size}
use cpp_linux_server_frame.Http.Receive.{
  Parser, Message, Received, received, Failure, failed, closed, thrown, overflowed, out_of_fuel,
  recv_request,
}
use cpp_linux_server_frame.Http.Servlet.{ServletDispatch, handle}

-- What the server is made of: `C` are the servlets, `R` the responses.
pub record HttpServer (S P C R : Type 0) : Type 0 where
  pub is_keep_alive : Bool
  pub dispatch : ServletDispatch C
  -- HttpResponse(version, close) for a request, and toString.
  pub new_response : Message P → Bool → R
  pub to_string : R → List ℕ
  -- getPath of a request
  pub path : Message P → List ℕ
  -- Servlet::handle, which may change the request and the response, and read and write the session.
  pub run : C → Message P × R × S → Message P × R × S
  pub fnmatch : List ℕ → List ℕ → Bool

-- isClose of a request; it begins as true.
abbrev pub is_close : {P : Type 0} → Message P → Bool
is_close m = not m.keeps_alive

module _ {S P C R : Type 0} (ops : ReadOps S) (writes : WriteOps S) (parser : Parser P)
    (buff_size : ℕ) (server : HttpServer S P C R) where
  -- The connection ends after the answer to this request.
  abbrev pub ends_after : Message P → Bool
  ends_after m = not server.is_keep_alive || is_close m

  -- What the servlet leaves of the request, the new response and the session.
  abbrev pub answer : Message P → S → Message P × R × S
  answer m s =
      (handle server.fnmatch server.run server.dispatch (server.path m)
        (m, server.new_response m (is_close m || not server.is_keep_alive), s)).0

  -- The number of bytes that writeFixSize gets: the size of the text as an int, 0 where that is
  -- negative.
  abbrev pub int_size : ℕ → ℕ
  int_size n = let low = n % 2 ^ 32 in if leb (2 ^ 31) low then 0 else low

  -- sendResponse; the loop ignores its result.
  unfoldable pub send_response : R → S → S
  send_response resp s =
      let text = server.to_string resp in
      (write_fix_size writes s (take (int_size (length text)) text)).1

  -- How handleClient ends: the session is closed behind the loop; or recvRequest has failed
  -- otherwise than by null, which ends it there; or the fuel is used up.
  pub data Outcome : Type 0 where
    session_closed : Outcome
    raised : Failure → Outcome
    starved : Outcome

  -- The requests, as their servlets have left them, with their responses; the outcome; the stream.
  pub record Handled : Type 0 where
    pub answered : List (Message P × R)
    pub outcome : Outcome
    pub stream : S

  abbrev pub and_before : Message P → R → Handled → Handled
  and_before m resp h = record h { answered = (m, resp) ∷ h.answered }

  abbrev pub no_answer : Outcome → S → Handled
  no_answer o s = record { answered = []; outcome = o; stream = s }

  -- What follows recvRequest in a round.
  abbrev pub after_request : (S → Handled) → Received (Message P) × S → Handled
  after_request next (failed closed, s) = no_answer session_closed s
  after_request next (failed thrown, s) = no_answer (raised thrown) s
  after_request next (failed overflowed, s) = no_answer (raised overflowed) s
  after_request next (out_of_fuel, s) = no_answer starved s
  after_request next (received m, s) =
      let (m', resp, s') = answer m s in
      let s'' = send_response resp s' in
      let rest = next s'' in
      if ends_after m'
      then record { answered = (m', resp) ∷ []; outcome = session_closed; stream = s'' }
      else and_before m' resp rest

  -- recvRequest with the fuel that it needs
  abbrev pub request : S → Received (Message P) × S
  request s = recv_request ops parser buff_size (suc (length (ops.content s))) s

  -- The loop of handleClient; each round but the last reads a byte at least.
  unfoldable pub handle_client : ℕ → S → Handled
  handle_client zero s = no_answer starved s
  handle_client (suc fuel) s = after_request (handle_client fuel) (request s)
