-- ===== src/ByteArray/Memory/Layout.antt =====
-- The invariant of a ByteArray, and what each operation does to the bytes stored in it.
use native.Mathlib.Nat.{div-add-mod', mod-lt}
use cpp_linux_server_frame.Base.{
  ℕ, zero, suc, ◌+◌, ◌-◌, ◌*◌, ◌/◌, ◌%◌, ◌≤◌, ◌<◌, max, ◌≡◌, refl, ap, sym, ◌∙◌, inl, inr, List, [],
  ◌∷◌, ◌++◌, some, false, Bool-cases, ltb, leb, ◌==◌, if◌then◌else◌, lt→ltb, length, take,
  length-append, length-replicate, replicate, arith, le_of_mul,
}
use cpp_linux_server_frame.ByteArray.Result.{Result, ok}
use cpp_linux_server_frame.ByteArray.Memory.{
  ByteArray, init, get_capacity, link_nodes, nodes_for, add_capacity, new_node, first_new_node,
  or_first, seek, set_position,
}
use cpp_linux_server_frame.ByteArray.Memory.Blocks.{
  flat, IsBlocks, cursor, length-flat, flat-append, append-IsBlocks, replicate-IsBlocks,
  seek-cursor,
}
use cpp_linux_server_frame.ByteArray.Memory.Slices.{take-append_le, length-take_le}

-- m_cur is the node that holds byte m_position, or null when that byte is not allocated.
pub record IsValid (b : ByteArray) : Type 0 where
  pub positive : 0 < b.base_size
  pub rooted : 0 < length b.nodes
  pub blocks : IsBlocks b.base_size b.nodes
  pub allocated : b.capacity ≡ length b.nodes * b.base_size
  pub within : b.size ≤ b.capacity
  pub behind : b.position ≤ b.size
  pub pointed : b.cur ≡ cursor b.nodes (b.position / b.base_size)

-- The bytes that a reader may see.
abbrev pub stored : ByteArray → List ℕ
stored b = take b.size (flat b.nodes)

pub length-stored : (b : ByteArray) → IsValid b → length (stored b) ≡ b.size
length-stored b v =
    length-take_le b.size (flat b.nodes)
      (omega (arith, v.within, v.allocated, length-flat b.base_size b.nodes v.blocks))

div_small : (n b : ℕ) → n < b → n / b ≡ 0
div_small n b h = grind arith

pub init-IsValid : (base_size : ℕ) → 0 < base_size → IsValid (init base_size)
init-IsValid b pos = record {
  positive = pos;
  rooted = omega arith;
  blocks = (length-replicate b 0, tt);
  allocated = omega arith;
  within = omega arith;
  behind = omega arith;
  pointed = ap (cursor (new_node b ∷ [])) (sym (div_small 0 b pos));
}

-- Behind the last node the null pointer becomes the first new node.
grown_cursor :
    (nodes more : List (List ℕ)) (c n : ℕ)
    → c ≤ length nodes
    → 0 < n
    → length more ≡ n
    → or_first (cursor nodes c) (first_new_node nodes n) ≡ cursor (nodes ++ more) c
grown_cursor nodes more c zero h pos e = absurd (omega arith)
grown_cursor nodes more c (suc n) h pos e = elim (Bool-cases (ltb c (length nodes))) [
  | inl old ↦
      rw (old, lt→ltb c (length (nodes ++ more)) (ground (arith, length-append nodes more))) refl
  | inr new ↦
      rw (new, lt→ltb c (length (nodes ++ more)) (ground (arith, length-append nodes more)))
        (ap some (ground arith))
]

enough_nodes : (v b : ℕ) → 0 < b → v ≤ nodes_for v b * b
enough_nodes v b pos = elim (Bool-cases (v % b == 0)) [
  | inl exact ↦ rw exact (ground (arith, div-add-mod' v b))
  | inr over ↦ rw over (omega (arith, div-add-mod' v b, mod-lt v pos))
]

some_nodes : (v b : ℕ) → 0 < b → 0 < v → 0 < nodes_for v b
some_nodes v b pos h = elim (Bool-cases (v % b == 0)) [
  | inl exact ↦ rw exact (ground (arith, div-add-mod' v b))
  | inr over ↦ rw over (omega arith)
]

-- The node number of a position inside the memory, and the place in that node.
pub position_parts :
    (b : ByteArray)
    → IsValid b
    → (b.position / b.base_size * b.base_size + b.position % b.base_size ≡ b.position)
      × (b.position % b.base_size < b.base_size)
      × (b.position / b.base_size ≤ length b.nodes)
position_parts b v = (
  div-add-mod' b.position b.base_size,
  mod-lt b.position v.positive,
  le_of_mul (b.position / b.base_size) (length b.nodes) b.base_size v.positive
      (omega (arith, div-add-mod' b.position b.base_size)),
)

-- What addCapacity promises to the operations that call it.
pub record HasRoom (b : ByteArray) (value : ℕ) (g : ByteArray) : Type 0 where
  pub valid : IsValid g
  pub same_base : g.base_size ≡ b.base_size
  pub same_position : g.position ≡ b.position
  pub same_size : g.size ≡ b.size
  pub same_endian : g.endian ≡ b.endian
  pub room : b.size + value ≤ g.capacity
  pub same_stored : stored g ≡ stored b

has_room : (b : ByteArray) (value : ℕ) → IsValid b → b.size + value ≤ b.capacity → HasRoom b value b
has_room b value v h = record {
  valid = v;
  same_base = refl;
  same_position = refl;
  same_size = refl;
  same_endian = refl;
  room = h;
  same_stored = refl;
}

link_nodes-HasRoom :
    (b : ByteArray) (value n : ℕ)
    → IsValid b
    → 0 < n
    → value ≤ get_capacity b + n * b.base_size
    → HasRoom b value (link_nodes b n)
unfolding link_nodes get_capacity
link_nodes-HasRoom b value n v pos h = record {
  valid = record {
    positive = v.positive;
    rooted = omega (arith, length-append b.nodes (replicate n (new_node b.base_size)));
    blocks =
        append-IsBlocks b.base_size b.nodes (replicate n (new_node b.base_size)) v.blocks
          (replicate-IsBlocks b.base_size n);
    allocated = rw (length-append b.nodes, length-replicate n (new_node b.base_size)) (omega arith);
    within = omega arith;
    behind = v.behind;
    pointed = rw v.pointed (
        grown_cursor b.nodes (replicate n (new_node b.base_size)) (b.position / b.base_size) n
          (position_parts b v).2 pos (length-replicate n (new_node b.base_size)));
  };
  same_base = refl;
  same_position = refl;
  same_size = refl;
  same_endian = refl;
  room = omega arith;
  same_stored = rw flat-append (
      take-append_le b.size (flat b.nodes) (flat (replicate n (new_node b.base_size)))
        (omega (arith, length-flat b.base_size b.nodes v.blocks)));
}

-- addCapacity on a valid array leaves a valid array whose capacity has room for `value` bytes
-- behind the stored ones, and keeps the stored bytes, the position, the size, the node size and
-- the byte order.
pub add_capacity-HasRoom :
    (b : ByteArray) (value : ℕ) → IsValid b → HasRoom b value (add_capacity b value)
unfolding add_capacity
add_capacity-HasRoom b value v = elim (Bool-cases (value == 0)) [
  | inl none_asked ↦ rw none_asked (has_room b value v (ground (arith, v.within)))
  | inr asked ↦ rw asked (elim (Bool-cases (leb value (get_capacity b))) [
    | inl fits ↦ rw fits (has_room b value v (unfold get_capacity in ground (arith, v.within)))
    | inr more ↦ rw more (
        link_nodes-HasRoom b value (nodes_for (value - get_capacity b) b.base_size) v
          (some_nodes (value - get_capacity b) b.base_size v.positive (ground arith))
          (omega (arith, enough_nodes (value - get_capacity b) b.base_size v.positive)))
  ])
]

-- setPosition moves to any allocated byte, and counts the bytes in front of it as stored.
pub record MovedTo (b : ByteArray) (val : ℕ) (r : Result ByteArray) : Type 0 where
  pub moved : ByteArray
  pub returns : r ≡ ok moved
  pub valid : IsValid moved
  pub at_val : moved.position ≡ val
  pub covers : moved.size ≡ max b.size val
  pub same_nodes : moved.nodes ≡ b.nodes
  pub same_capacity : moved.capacity ≡ b.capacity
  pub same_base : moved.base_size ≡ b.base_size
  pub same_endian : moved.endian ≡ b.endian

-- setPosition to a position within the capacity of a valid array succeeds, makes the size the
-- larger of the old size and the position, keeps the nodes, the capacity, the node size and the
-- byte order, and leaves the array valid, m_cur included.
pub set_position-MovedTo :
    (b : ByteArray) (val : ℕ) → IsValid b → val ≤ b.capacity → MovedTo b val (set_position b val)
unfolding set_position
set_position-MovedTo b val v h = record {
  moved = record b {
    position = val;
    size = if ltb b.size val then val else b.size;
    cur = cursor b.nodes (val / b.base_size);
  };
  returns = rw (not_beyond, sought) refl;
  valid = record {
    positive = v.positive;
    rooted = v.rooted;
    blocks = v.blocks;
    allocated = v.allocated;
    within = ground (arith, v.within);
    behind = ground arith;
    pointed = refl;
  };
  at_val = refl;
  covers = ground arith;
  same_nodes = refl;
  same_capacity = refl;
  same_base = refl;
  same_endian = refl;
}
  where
    not_beyond : ltb b.capacity val ≡ false
    not_beyond = ground arith

    sought : seek b.nodes b.nodes 0 val ≡ ok (cursor b.nodes (val / b.base_size))
    sought =
        seek-cursor b.base_size b.nodes b.nodes 0 val v.positive v.blocks (omega arith) v.rooted
          (omega (arith, v.allocated))
        ∙ ap (λ (t : ℕ). ok (cursor b.nodes (t / b.base_size))) (omega arith)
