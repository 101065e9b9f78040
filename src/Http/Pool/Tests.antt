-- ===== src/Http/Pool/Tests.antt =====
-- Runs of a pool, and the theorems at concrete inputs.
use cpp_linux_server_frame.Base.{
  ◌≡◌, refl, true, false, [], ◌∷◌, none, some, ◌==◌, if◌then◌else◌, arith,
}
use cpp_linux_server_frame.Http.Pool.{
  HttpConnectionPool, scan, hand_out, get_connection, release_ptr,
}
use cpp_linux_server_frame.Http.Pool.Laws.{IsCounted, Gets, get_connection-Gets}

-- Connection 1 is closed, 2 and 3 are open; 4 is handed out.
abbrev pool : HttpConnectionPool
pool = record {
  max_alive_time = 1000;
  max_request = 5;
  connections =
      λ a. record { is_connected = if a == 1 then false else true; create_time = 100; request = 4 };
  conns = 1 ∷ 2 ∷ 3 ∷ [];
  total = 4;
}

pool-IsCounted : IsCounted pool 1
pool-IsCounted = record { counts = refl; fits = omega arith }

first_open : (get_connection 500 none pool).conn ≡ some 2
unfolding get_connection hand_out scan
first_open = refl

all_too_old : (get_connection 2000 (some 9) pool).deleted ≡ 1 ∷ 2 ∷ 3 ∷ []
unfolding get_connection hand_out scan
all_too_old = refl

-- Its fifth request is the last.
used_up : (release_ptr 500 4 pool).0 ≡ true
unfolding release_ptr
used_up = refl

get_connection-Gets_example : Gets 500 none pool 1 (get_connection 500 none pool)
get_connection-Gets_example = get_connection-Gets 500 none pool 1 pool-IsCounted
