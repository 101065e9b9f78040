-- ===== src/Http/Dump/Tests.antt =====
-- A request and a response with a body, and the theorem at these.
use cpp_linux_server_frame.Base.{ℕ, ◌+◌, ◌≡◌, refl, true, false, List, [], ◌∷◌}
use cpp_linux_server_frame.Http.Cstring.{codes}
use cpp_linux_server_frame.Http.Headers.{MapType}
use cpp_linux_server_frame.Http.Method.{http_method_to_string}
use cpp_linux_server_frame.Http.Dump.{HttpRequest, HttpResponse, dump_request, dump_response}
use cpp_linux_server_frame.Http.Dump.Laws.{
  cut, header_lines, length_lines, told_request, told_status, told_length, told_connection,
  cut-dump_request,
}

-- A number of one digit.
abbrev digit : ℕ → List ℕ
digit n = (48 + n) ∷ []

abbrev hosts : MapType
hosts = (codes "connection", codes "x") ∷ (codes "Host", codes "a") ∷ []

-- GET /a?b=c
abbrev get_request : HttpRequest
get_request = record {
  method = 1;
  version = 17;
  close = true;
  path = codes "/a";
  query = codes "b=c";
  fragment = [];
  body = codes "hello";
  headers = hosts;
}

abbrev fine_response : HttpResponse
fine_response = record {
  status = 2;
  reason = codes "Fine";
  version = 17;
  close = false;
  body = codes "yes";
  headers = hosts;
}

cut-dump_request_example :
    (cut [] (dump_request digit get_request) ≡ (
      told_request digit get_request
          ∷ told_connection true
          ∷ header_lines hosts (
              length_lines
                (told_length digit (codes "Content-Length:") get_request.body)
                get_request.body),
      get_request.body,
    ))
    × (cut [] (dump_response digit fine_response) ≡ (
      told_status digit fine_response
          ∷ told_connection false
          ∷ header_lines hosts (
              length_lines
                (told_length digit (codes "Content-Cength:") fine_response.body)
                fine_response.body),
      fine_response.body,
    ))
unfolding http_method_to_string
cut-dump_request_example =
    cut-dump_request digit get_request fine_response (refl, refl) (refl, refl) (refl, refl)
      (refl, refl) ((refl, refl), ((refl, refl), tt)) ((refl, refl), ((refl, refl), tt))
