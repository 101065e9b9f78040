-- ===== src/ByteArray/Memory.antt =====
-- The storage of a ByteArray (yuan/bytearray.cc): construction, clear, addCapacity, write, read,
-- setPosition, toString. The linked list of nodes is the list of their contents, a node pointer is
-- an index into it, and the null pointer is `none`. Sizes are far below 2 ^ 64, so that sums of
-- them do not wrap; the one difference that can wrap does so here.
pub mod Slices
pub mod Blocks
pub mod Layout
pub mod Access
use cpp_linux_server_frame.Base.{
  ℕ, zero, suc, ◌+◌, ◌-◌, ◌*◌, ◌/◌, ◌%◌, ◌^◌, Bool, true, false, List, [], ◌∷◌, ◌++◌, Option, none,
  some, ltb, leb, ◌==◌, if◌then◌else◌, length, get_elem?, set, take, drop, replicate,
}
use cpp_linux_server_frame.ByteArray.Result.{Result, ok, out_of_range, fault, ◌>>=◌}

-- The values of m_endian.
pub data Endian : Type 0 where
  little big : Endian

pub record ByteArray : Type 0 where
  pub base_size : ℕ
  pub position : ℕ
  pub size : ℕ
  pub capacity : ℕ
  pub endian : Endian
  pub nodes : List (List ℕ)
  pub cur : Option ℕ

-- `new char[n]` leaves its bytes indeterminate; here they are 0. No theorem depends on it.
abbrev pub new_node : ℕ → List ℕ
new_node n = replicate n 0

abbrev pub init : ℕ → ByteArray
init base_size = record {
  base_size = base_size;
  position = 0;
  size = 0;
  capacity = base_size;
  endian = big;
  nodes = new_node base_size ∷ [];
  cur = some 0;
}

unfoldable pub get_read_size : ByteArray → ℕ
get_read_size b = b.size - b.position

unfoldable pub get_capacity : ByteArray → ℕ
get_capacity b = b.capacity - b.size

-- `p->next` of the node with index `c`.
abbrev pub next : List (List ℕ) → ℕ → Option ℕ
next nodes c = if ltb (c + 1) (length nodes) then some (c + 1) else none

unfoldable pub clear : ByteArray → ByteArray
clear b = record b {
  position = 0;
  size = 0;
  capacity = b.base_size;
  nodes = take 1 b.nodes;
  cur = some 0;
}

-- The new nodes are linked behind the last one; the first of them replaces a null m_cur.
abbrev pub first_new_node : List (List ℕ) → ℕ → Option ℕ
first_new_node nodes zero = none
first_new_node nodes (suc n) = some (length nodes)

abbrev pub or_first : Option ℕ → Option ℕ → Option ℕ
or_first none first = first
or_first (some c) first = some c

abbrev pub nodes_for : ℕ → ℕ → ℕ
nodes_for value base_size = value / base_size + (if value % base_size == 0 then 0 else 1)

unfoldable pub link_nodes : ByteArray → ℕ → ByteArray
link_nodes b n = record b {
  capacity = b.capacity + n * b.base_size;
  nodes = b.nodes ++ replicate n (new_node b.base_size);
  cur = or_first b.cur (first_new_node b.nodes n);
}

unfoldable pub add_capacity : ByteArray → ℕ → ByteArray
add_capacity b value =
    if value == 0
    then b
    else if leb value (get_capacity b)
    then b
    else link_nodes b (nodes_for (value - get_capacity b) b.base_size)

-- memcpy of `bytes` to `node->ptr + at`
abbrev pub copy_to : List ℕ → ℕ → List ℕ → List ℕ
copy_to node at bytes = take at node ++ (bytes ++ drop (length bytes) (drop at node))

-- The loop of write, from byte `node_pos` of the node m_cur. Each round copies a byte at least, so
-- that the number of bytes is enough fuel. A fault is a null m_cur.
unfoldable pub write_loop :
    ℕ → List (List ℕ) → Option ℕ → ℕ → List ℕ → Result (List (List ℕ) × Option ℕ)
write_loop fuel nodes cur node_pos [] = ok (nodes, cur)
write_loop fuel nodes none node_pos (x ∷ buf) = fault
write_loop zero nodes (some c) node_pos (x ∷ buf) = fault
write_loop (suc fuel) nodes (some c) node_pos (x ∷ buf) = elim (get_elem? nodes c) [
  | none ↦ fault
  | some node ↦
      let node_cap = length node - node_pos in
      let rest =
        write_loop fuel (set nodes c (copy_to node node_pos (take node_cap (x ∷ buf))))
          (next nodes c) 0 (drop node_cap (x ∷ buf)) in
      if leb (length (x ∷ buf)) node_cap
      then ok (
        set nodes c (copy_to node node_pos (x ∷ buf)),
        if node_cap == length (x ∷ buf) then next nodes c else some c,
      )
      else rest
]

-- What write stores once its loop has ended.
abbrev pub finish_write : ByteArray → ℕ → List (List ℕ) × Option ℕ → ByteArray
finish_write b n (nodes, cur) =
    let position = b.position + n in
    record b {
      position = position;
      size = if ltb b.size position then position else b.size;
      nodes = nodes;
      cur = cur;
    }

unfoldable pub write : ByteArray → List ℕ → Result ByteArray
write b [] = ok b
write b (x ∷ buf) =
    let grown = add_capacity b (length (x ∷ buf)) in
    write_loop (length (x ∷ buf)) grown.nodes grown.cur (grown.position % grown.base_size) (x ∷ buf)
    >>= λ r. ok (finish_write grown (length (x ∷ buf)) r)

-- The loop that both overloads of read share: `size` bytes from byte `node_pos` of the node `cur`,
-- with the node pointer behind them.
unfoldable pub read_loop : ℕ → List (List ℕ) → Option ℕ → ℕ → ℕ → Result (List ℕ × Option ℕ)
read_loop fuel nodes cur node_pos zero = ok ([], cur)
read_loop fuel nodes none node_pos (suc n) = fault
read_loop zero nodes (some c) node_pos (suc n) = fault
read_loop (suc fuel) nodes (some c) node_pos (suc n) = elim (get_elem? nodes c) [
  | none ↦ fault
  | some node ↦
      let node_cap = length node - node_pos in
      let rest = read_loop fuel nodes (next nodes c) 0 (suc n - node_cap) in
      if leb (suc n) node_cap
      then ok
          (take (suc n) (drop node_pos node), if suc n == node_cap then next nodes c else some c)
      else (rest >>= λ r. ok (take node_cap (drop node_pos node) ++ r.0, r.1))
]

-- `position % m_cur->size`, then the loop. A null m_cur is followed even when `size` is 0.
unfoldable pub read_from : ByteArray → Option ℕ → ℕ → ℕ → Result (List ℕ × Option ℕ)
read_from b none position n = fault
read_from b (some c) position n = elim (get_elem? b.nodes c) [
  | none ↦ fault
  | some node ↦ read_loop n b.nodes (some c) (position % length node) n
]

-- read(buf, size)
unfoldable pub read : ByteArray → ℕ → Result (List ℕ × ByteArray)
read b n =
    if ltb (get_read_size b) n
    then out_of_range
    else (read_from b b.cur b.position n >>= λ r.
        ok (r.0, record b { position = b.position + n; cur = r.1 }))

-- read(buf, size, position) const. It starts in the node m_cur, whatever `position` is; the
-- difference m_size - position wraps.
unfoldable pub peek : ByteArray → ℕ → ℕ → Result (List ℕ)
peek b n position =
    if ltb ((b.size + 2 ^ 64 - position) % 2 ^ 64) n
    then out_of_range
    else (read_from b b.cur position n >>= λ r. ok r.0)

-- toString
unfoldable pub to_string : ByteArray → Result (List ℕ)
to_string b = if get_read_size b == 0 then ok [] else peek b (get_read_size b) b.position

-- The loop of setPosition over the nodes from index `c` on.
unfoldable pub seek : List (List ℕ) → List (List ℕ) → ℕ → ℕ → Result (Option ℕ)
seek nodes [] c val = fault
seek nodes (node ∷ rest) c val =
    if ltb (length node) val
    then seek nodes rest (c + 1) (val - length node)
    else if val == length node
    then ok (next nodes c)
    else ok (some c)

unfoldable pub set_position : ByteArray → ℕ → Result ByteArray
set_position b val =
    if ltb b.capacity val
    then out_of_range
    else (seek b.nodes b.nodes 0 val >>= λ cur.
        ok (record b { position = val; size = if ltb b.size val then val else b.size; cur = cur }))
