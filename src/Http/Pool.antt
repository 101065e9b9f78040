-- ===== src/Http/Pool.antt =====
-- HttpConnectionPool::getConnection and ReleasePtr (yuan/http/http_connection.cc). A connection is an
-- object of a store under its address.
pub mod Laws
mod Tests
use cpp_linux_server_frame.Base.{
  ℕ, ◌+◌, ◌-◌, ◌%◌, ◌^◌, Bool, true, false, ◌&&◌, ◌||◌, not, List, [], ◌∷◌, ◌++◌, Option, none,
  some, leb, ◌==◌, if◌then◌else◌, length,
}

pub record Connection : Type 0 where
  -- isConnected()
  pub is_connected : Bool
  pub create_time : ℕ
  pub request : ℕ

-- `total` is an int32_t, taken modulo 2 ^ 32.
pub record HttpConnectionPool : Type 0 where
  pub max_alive_time : ℕ
  pub max_request : ℕ
  pub connections : ℕ → Connection
  pub conns : List ℕ
  pub total : ℕ

-- m_createTime + m_maxAliveTime <= now, on uint64_t
abbrev pub is_too_old : ℕ → HttpConnectionPool → ℕ → Bool
is_too_old now p c = leb (((p.connections c).create_time + p.max_alive_time) % 2 ^ 64) now

-- The loop over m_conns: the connections taken out, the one found, and those that are left.
pub record Scanned : Type 0 where
  pub invalid_connections : List ℕ
  pub conn : Option ℕ
  pub left : List ℕ

unfoldable pub scan : ℕ → HttpConnectionPool → List ℕ → Scanned
scan now p [] = record { invalid_connections = []; conn = none; left = [] }
scan now p (temp ∷ l) =
    let rest = scan now p l in
    let skipped = record rest { invalid_connections = temp ∷ rest.invalid_connections } in
    if not (p.connections temp).is_connected
    then skipped
    else if is_too_old now p temp
    then skipped
    else record { invalid_connections = []; conn = some temp; left = l }

-- What getConnection returns, the connections it deletes, and the pool.
pub record Taken : Type 0 where
  pub conn : Option ℕ
  pub deleted : List ℕ
  pub pool : HttpConnectionPool

-- getConnection after its loop; `connects` is what the lookup of the host, connect and new give: no
-- connection, or the address of a new one.
unfoldable pub hand_out : ℕ → Option ℕ → HttpConnectionPool → Scanned → Taken
hand_out now connects p scanned =
    let total = (p.total + (2 ^ 32 - length scanned.invalid_connections)) % 2 ^ 32 in
    let p' = record p { conns = scanned.left; total = total } in
    elim scanned.conn [
      | some c ↦ record { conn = some c; deleted = scanned.invalid_connections; pool = p' }
      | none ↦ elim connects [
        | none ↦ record { conn = none; deleted = scanned.invalid_connections; pool = p' }
        | some a ↦ record {
          conn = some a;
          deleted = scanned.invalid_connections;
          pool = record p' {
            connections = λ b.
                if a == b
                then record { is_connected = true; create_time = now; request = 0 }
                else p.connections b;
            total = (total + 1) % 2 ^ 32;
          };
        }
      ]
    ]

-- getConnection
unfoldable pub get_connection : ℕ → Option ℕ → HttpConnectionPool → Taken
get_connection now connects p = hand_out now connects p (scan now p p.conns)

-- ReleasePtr: whether the connection is deleted, and the pool.
unfoldable pub release_ptr : ℕ → ℕ → HttpConnectionPool → Bool × HttpConnectionPool
release_ptr now a p =
    let c = p.connections a in
    let c' = record c { request = (c.request + 1) % 2 ^ 64 } in
    let p' = record p { connections = λ b. if a == b then c' else p.connections b } in
    if not c.is_connected || is_too_old now p a || leb p.max_request c'.request
    then (true, record p' { total = (p.total + (2 ^ 32 - 1)) % 2 ^ 32 })
    else (false, record p' { conns = p.conns ++ a ∷ [] })
