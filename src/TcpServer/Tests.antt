-- ===== src/TcpServer/Tests.antt =====
-- The theorems on a TcpServer at concrete inputs.
use cpp_linux_server_frame.Base.{refl, true, false, List, [], ◌∷◌, none, some}
use cpp_linux_server_frame.TcpServer.{TcpServer, new_server, Attempt, bind, Accepted, accept_loop}
use cpp_linux_server_frame.TcpServer.Laws.{Binds, bind-Binds, Served, accept_loop-Served}

-- The second address is in use.
abbrev two : List Attempt
two =
    record { addr = 80; sock = 1; binds = true; listens = true }
    ∷ record { addr = 81; sock = 2; binds = false; listens = true }
    ∷ []

abbrev one : List Attempt
one = record { addr = 80; sock = 1; binds = true; listens = true } ∷ []

bind-Binds_example : Binds two [] (new_server 100) (bind two [] (new_server 100))
bind-Binds_example = bind-Binds two [] (new_server 100)

abbrev running : TcpServer
running = record (new_server 100) { socks = 1 ∷ []; is_stop = false }

abbrev calls : List Accepted
calls =
    record { client = some 7; stopped = false }
    ∷ record { client = none; stopped = false }
    ∷ record { client = some 8; stopped = true }
    ∷ record { client = some 9; stopped = false }
    ∷ []

accept_loop-Served_example : Served calls running (accept_loop calls running)
accept_loop-Served_example = accept_loop-Served calls running refl
