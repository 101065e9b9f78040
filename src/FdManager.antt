-- ===== src/FdManager.antt =====
-- FdManager and FdCtx (yuan/fd_manager.h, yuan/fd_manager.cc). A shared pointer is an option, null
-- is `none`. A descriptor is a natural number, and -1 is `none`.
pub mod Laws
use cpp_linux_server_frame.Base.{
  ℕ, zero, suc, ◌-◌, ◌*◌, ◌/◌, ◌^◌, Bool, true, false, List, [], ◌∷◌, Option, none, some, ltb,
  if◌then◌else◌, length, get_elem?, set, replicate, take, ◌++◌,
}

pub record FdCtx : Type 0 where
  pub is_init : Bool
  pub is_socket : Bool
  pub sys_non_block : Bool
  pub user_non_block : Bool
  pub is_closed : Bool
  pub fd : ℕ
  pub recv_timeout : ℕ
  pub send_timeout : ℕ

-- getTimeout and setTimeout; the tag is whether `type` is SO_RCVTIMEO.
unfoldable pub get_timeout : FdCtx → Bool → ℕ
get_timeout c recv = if recv then c.recv_timeout else c.send_timeout

unfoldable pub set_timeout : FdCtx → Bool → ℕ → FdCtx
set_timeout c recv timeout =
    if recv then record c { recv_timeout = timeout } else record c { send_timeout = timeout }

-- `out_of_bounds` is an index behind the end of m_datas.
pub data Answer (A : Type 0) : Type 0 where
  answer : A → Answer A
  out_of_bounds : Answer A

-- m_datas.resize, which cuts, or fills up with null pointers
abbrev pub resized : List (Option FdCtx) → ℕ → List (Option FdCtx)
resized d size = take size d ++ replicate (size - length d) none

-- FdManager::FdManager
abbrev pub new_datas : List (Option FdCtx)
new_datas = replicate 64 none

-- FdManager::del
unfoldable pub del : List (Option FdCtx) → ℕ → List (Option FdCtx)
del d fd = if ltb fd (length d) then set d fd none else d

-- `fstat` is whether the descriptor is a socket, `none` where fstat fails.
module _ (fstat : ℕ → Option Bool) where
  -- The constructor and init; -1 is stored in an unsigned timeout.
  unfoldable pub new_fd_ctx : ℕ → FdCtx
  new_fd_ctx fd =
      let kind = fstat fd in
      let socket : Bool = elim kind [ none ↦ false | some b ↦ b ] in
      record {
        is_init = elim kind [ none ↦ false | some b ↦ true ];
        is_socket = socket;
        sys_non_block = socket;
        user_non_block = false;
        is_closed = false;
        fd = fd;
        recv_timeout = 2 ^ 64 - 1;
        send_timeout = 2 ^ 64 - 1;
      }

  -- The end of get, which stores a new context.
  abbrev pub store_new : List (Option FdCtx) → ℕ → Answer (Option FdCtx × List (Option FdCtx))
  store_new d fd =
      if ltb fd (length d)
      then answer (some (new_fd_ctx fd), set d fd (some (new_fd_ctx fd)))
      else out_of_bounds

  unfoldable pub get :
      List (Option FdCtx) → Option ℕ → Bool → Answer (Option FdCtx × List (Option FdCtx))
  get d none auto_create = answer (none, d)
  get d (some fd) auto_create = elim (get_elem? d fd) [
    | none ↦ if auto_create then store_new (resized d (fd * 3 / 2)) fd else answer (none, d)
    | some (some c) ↦ answer (some c, d)
    | some none ↦ if auto_create then store_new d fd else answer (none, d)
  ]
