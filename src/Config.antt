-- ===== src/Config.antt =====
-- Config and ConfigVar (yuan/config.h, yuan/config.cc). The types of the variables are one type `V`
-- of values, with the conversion of a name's variable from a text, which may throw, as a parameter.
-- Nodes are those of yaml-cpp, as far as the code asks for them; `<<` prints them.
mod Listed
mod Members
mod Laws
mod Tests
use cpp_linux_server_frame.Base.{
  ℕ, zero, suc, ◌+◌, Bool, true, false, ◌&&◌, ◌||◌, List, [], ◌∷◌, ◌++◌, Option, none, some, leb,
  ◌==◌, if◌then◌else◌,
}
use cpp_linux_server_frame.Http.Cstring.{to_lower}
use cpp_linux_server_frame.Log.Loggers.{same_text}

-- A node: a scalar, a map in its order, or another node.
mutual
  pub data Node : Type 0 where
    scalar : List ℕ → Node
    entries : Entries → Node
    other : ℕ → Node

  pub data Entries : Type 0 where
    end : Entries
    entry : List ℕ → Node → Entries → Entries

abbrev pub is_name_byte : ℕ → Bool
is_name_byte c = (leb b'a' c && leb c b'z') || c == b'.' || c == b'_' || (leb b'0' c && leb c b'9')

-- find_first_not_of the bytes of a name is npos
unfoldable pub is_name : List ℕ → Bool
is_name [] = true
is_name (c ∷ s) = is_name_byte c && is_name s

abbrev pub is_empty : List ℕ → Bool
is_empty [] = true
is_empty (c ∷ s) = false

abbrev pub joined : List ℕ → List ℕ → List ℕ
joined prefix key = if is_empty prefix then key else prefix ++ b'.' ∷ key

-- ListAllMember, with what it appends to its output
unfoldable mutual
  pub list_all_member : List ℕ → Node → List (List ℕ × Node)
  list_all_member prefix (scalar s) = if is_name prefix then (prefix, scalar s) ∷ [] else []
  list_all_member prefix (other n) = if is_name prefix then (prefix, other n) ∷ [] else []
  list_all_member prefix (entries e) =
      let below = list_members prefix e in
      if is_name prefix then (prefix, entries e) ∷ below else []

  pub list_members : List ℕ → Entries → List (List ℕ × Node)
  list_members prefix end = []
  list_members prefix (entry key node rest) =
      list_all_member (joined prefix key) node ++ list_members prefix rest

-- A ConfigVar: its value, the keys of its listeners, and the calls of them so far, each with the old
-- and the new value.
pub record ConfigVar (V : Type 0) : Type 0 where
  pub val : V
  pub cbs : List ℕ
  pub calls : List (ℕ × V × V)

abbrev pub notified : {V : Type 0} → List ℕ → V → V → List (ℕ × V × V)
notified [] old new = []
notified (k ∷ cbs) old new = (k, old, new) ∷ notified cbs old new

-- The map of Config is a function.
abbrev pub ConfigVarMap : Type 0 → Type 0
ConfigVarMap V = List ℕ → Option (ConfigVar V)

abbrev pub lower : List ℕ → List ℕ
lower [] = []
lower (c ∷ s) = to_lower c ∷ lower s

module _ {V : Type 0} (same : V → V → Bool) (from_text : List ℕ → List ℕ → Option V)
    (print : Node → List ℕ) where
  -- setValue
  unfoldable pub set_value : ConfigVar V → V → ConfigVar V
  set_value v new =
      if same new v.val
      then v
      else record v { val = new; calls = v.calls ++ notified v.cbs v.val new }

  -- fromString of the variable `name`; a conversion that throws changes nothing.
  unfoldable pub from_string : List ℕ → ConfigVar V → List ℕ → ConfigVar V
  from_string name v text = elim (from_text name text) [ none ↦ v | some new ↦ set_value v new ]

  -- The text of a node that LoadFromYaml gives to fromString
  unfoldable pub text_of : Node → List ℕ
  text_of (scalar s) = s
  text_of (entries e) = print (entries e)
  text_of (other n) = print (other n)

  abbrev pub put : List ℕ → ConfigVar V → ConfigVarMap V → ConfigVarMap V
  put name v m key = if same_text name key then some v else m key

  abbrev pub assign : List ℕ → Node → ConfigVarMap V → Option (ConfigVar V) → ConfigVarMap V
  assign key node m none = m
  assign key node m (some v) = put key (from_string key v (text_of node)) m

  -- One round of the loop of LoadFromYaml
  unfoldable pub load_member : List ℕ → Node → ConfigVarMap V → ConfigVarMap V
  load_member key node m = if is_empty key then m else assign (lower key) node m (m (lower key))

  unfoldable pub load_members : List (List ℕ × Node) → ConfigVarMap V → ConfigVarMap V
  load_members [] m = m
  load_members ((key, node) ∷ l) m = load_members l (load_member key node m)

  -- LoadFromYaml
  unfoldable pub load_from_yaml : Node → ConfigVarMap V → ConfigVarMap V
  load_from_yaml root m = load_members (list_all_member [] root) m
