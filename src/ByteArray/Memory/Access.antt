-- ===== src/ByteArray/Memory/Access.antt =====
-- write, read and toString against their abstract view: a byte sequence with a position in it.
use native.Mathlib.Nat.{div-add-mod'}
use cpp_linux_server_frame.Base.{
  ℕ, ◌+◌, ◌-◌, ◌*◌, ◌/◌, ◌%◌, ◌^◌, ◌≤◌, ◌<◌, max, ◌≡◌, refl, ap, ap₂, sym, ◌∙◌, inl, inr, List, [],
  ◌∷◌, Option, none, some, false, Bool-cases, ltb, ◌==◌, if◌then◌else◌, lt→ltb, length, take, drop,
  take-append-drop, length-drop, arith, div_unique, mul_mono,
}
use cpp_linux_server_frame.ByteArray.Result.{Result, ok, out_of_range, fault, ◌>>=◌}
use cpp_linux_server_frame.ByteArray.Memory.{
  ByteArray, get_read_size, add_capacity, copy_to, write_loop, finish_write, write, read_from, read,
  peek, to_string,
}
use cpp_linux_server_frame.ByteArray.Memory.Blocks.{
  flat, cursor, length-flat, node_at, Written, write_loop-Written, read_loop-Fetched,
}
use cpp_linux_server_frame.ByteArray.Memory.Layout.{
  IsValid, stored, length-stored, HasRoom, add_capacity-HasRoom, position_parts,
}
use cpp_linux_server_frame.ByteArray.Memory.Slices.{take-copy_to, slice-take, take_all, drop_all}

-- What a caller of write and read sees.
pub record View : Type 0 where
  pub bytes : List ℕ
  pub at : ℕ

abbrev pub view : ByteArray → View
view b = record { bytes = stored b; at = b.position }

-- Overwrite from the position on, and grow behind the end.
abbrev pub put : View → List ℕ → View
put v buf = record { bytes = copy_to v.bytes v.at buf; at = v.at + length buf }

abbrev pub get : View → ℕ → List ℕ
get v n = take n (drop v.at v.bytes)

pub record Wrote (b : ByteArray) (buf : List ℕ) (r : Result ByteArray) : Type 0 where
  pub after : ByteArray
  pub returns : r ≡ ok after
  pub valid : IsValid after
  pub refines : view after ≡ put (view b) buf
  pub covers : after.size ≡ max b.size (b.position + length buf)
  pub same_endian : after.endian ≡ b.endian
  pub same_base : after.base_size ≡ b.base_size

-- A pointer inside the memory is not null.
cursor-some : (nodes : List (List ℕ)) (c : ℕ) → c < length nodes → cursor nodes c ≡ some c
cursor-some nodes c h = rw (lt→ltb c (length nodes) h) refl

node_lt : (p n b len : ℕ) → 0 < b → 0 < n → p + n ≤ len * b → p / b < len
node_lt p n b len pos hn h = grind (arith, mul_mono len (p / b) b, div-add-mod' p b)

-- What write makes of the result of its loop.
finished :
    (g : ByteArray) (buf : List ℕ) {r : Result (List (List ℕ) × Option ℕ)}
    → IsValid g
    → g.position + length buf ≤ g.capacity
    → Written g.base_size g.nodes g.position buf r
    → Wrote g buf (r >>= λ r. ok (finish_write g (length buf) r))
finished g buf v room w = record {
  after =
      finish_write g (length buf)
        (w.nodes', cursor w.nodes' ((g.position + length buf) / g.base_size));
  returns = rw w.returns refl;
  valid = record {
    positive = v.positive;
    rooted = rw w.same_length v.rooted;
    blocks = w.blocks;
    allocated = rw w.same_length v.allocated;
    within = ground (arith, v.within, v.behind);
    behind = ground (arith, v.behind);
    pointed = refl;
  };
  refines = ap (λ (t : List ℕ). record { bytes = t; at = g.position + length buf }) overwritten;
  covers = ground (arith, v.behind);
  same_endian = refl;
  same_base = refl;
}
  where
    overwritten :
        take
          (if ltb g.size (g.position + length buf) then g.position + length buf else g.size)
          (flat w.nodes')
        ≡ copy_to (stored g) g.position buf
    overwritten =
        ap₂ (λ (n : ℕ) (m : List ℕ). take n m) (ground arith) w.copied
        ∙ take-copy_to (flat g.nodes) g.size g.position buf v.behind
            (omega (arith, v.within, v.allocated, length-flat g.base_size g.nodes v.blocks))
            (omega (arith, v.within, v.allocated, length-flat g.base_size g.nodes v.blocks))

-- The loop starts inside the memory, as there is room.
enters :
    (g : ByteArray) (buf : List ℕ)
    → IsValid g
    → 0 < length buf
    → g.position + length buf ≤ g.capacity
    → Written g.base_size g.nodes g.position buf
        (write_loop (length buf) g.nodes g.cur (g.position % g.base_size) buf)
enters g buf v some_bytes room =
    let (whole, rest, _) = position_parts g v in
    let inside : g.position / g.base_size < length g.nodes =
      node_lt g.position (length buf) g.base_size (length g.nodes) v.positive some_bytes
        (omega (arith, v.allocated)) in
    rw (v.pointed, cursor-some g.nodes (g.position / g.base_size) inside)
      (rw whole at (
        write_loop-Written g.base_size (length buf) g.nodes (g.position / g.base_size)
          (g.position % g.base_size) buf v.blocks rest some_bytes (omega arith)
          (omega (arith, whole, v.allocated))))

from_room :
    (b g : ByteArray) (buf : List ℕ) {r : Result ByteArray}
    → HasRoom b (length buf) g
    → Wrote g buf r
    → Wrote b buf r
from_room b g buf h w = record {
  after = w.after;
  returns = w.returns;
  valid = w.valid;
  refines =
      w.refines
      ∙ ap₂ (λ (t : List ℕ) (n : ℕ). put (record { bytes = t; at = n }) buf) h.same_stored
          h.same_position;
  covers = w.covers ∙ ap₂ (λ (s n : ℕ). max s (n + length buf)) h.same_size h.same_position;
  same_endian = w.same_endian ∙ h.same_endian;
  same_base = w.same_base ∙ h.same_base;
}

-- write succeeds on every valid array: it overwrites the stored bytes from the position on and
-- grows behind their end, moves the position behind what it wrote, makes the size the larger of
-- the old size and the new position, keeps the byte order and the node size, and leaves a valid
-- array.
pub write-Wrote : (b : ByteArray) (buf : List ℕ) → IsValid b → Wrote b buf (write b buf)
unfolding write
write-Wrote b [] v = record {
  after = b;
  returns = refl;
  valid = v;
  refines =
      ap₂ (λ (t : List ℕ) (n : ℕ). record { bytes = t; at = n })
        (sym (take-append-drop b.position (stored b))) (omega arith);
  covers = omega (arith, v.behind);
  same_endian = refl;
  same_base = refl;
}
write-Wrote b (x ∷ buf) v =
    let r = add_capacity-HasRoom b (length (x ∷ buf)) v in
    from_room b (add_capacity b (length (x ∷ buf))) (x ∷ buf) r (
      finished (add_capacity b (length (x ∷ buf))) (x ∷ buf) r.valid
        (omega (arith, r.room, r.same_position, v.behind))
        (enters (add_capacity b (length (x ∷ buf))) (x ∷ buf) r.valid (omega arith)
          (omega (arith, r.room, r.same_position, v.behind))))

-- A read that finds its bytes.
pub record Got (b : ByteArray) (n : ℕ) (r : Result (List ℕ × ByteArray)) : Type 0 where
  pub after : ByteArray
  pub returns : r ≡ ok (get (view b) n, after)
  pub valid : IsValid after
  pub moved : view after ≡ record { bytes = stored b; at = b.position + n }
  pub same_size : after.size ≡ b.size
  pub same_endian : after.endian ≡ b.endian
  pub same_base : after.base_size ≡ b.base_size

fetches :
    (b : ByteArray) (n : ℕ)
    → IsValid b
    → 0 < n
    → b.position + n ≤ b.size
    → read_from b b.cur b.position n
      ≡ ok (get (view b) n, cursor b.nodes ((b.position + n) / b.base_size))
unfolding read_from
fetches b n v some_bytes stored_there =
    let (whole, rest, _) = position_parts b v in
    let inside : b.position / b.base_size < length b.nodes =
      node_lt b.position n b.base_size (length b.nodes) v.positive some_bytes
        (omega (arith, v.allocated, v.within)) in
    let (node, e, len) = node_at b.base_size b.nodes (b.position / b.base_size) v.blocks inside in
    let f =
      read_loop-Fetched b.base_size n b.nodes (b.position / b.base_size) (b.position % b.base_size)
        n v.blocks rest some_bytes (omega arith) (omega (arith, whole, v.allocated, v.within)) in
    ap (λ (p : Option ℕ). read_from b p b.position n)
      (v.pointed ∙ cursor-some b.nodes (b.position / b.base_size) inside)
    ∙ rw (e, len, read_from)
        (rw whole at f.returns
          ∙ ap (λ (t : List ℕ). ok (t, cursor b.nodes ((b.position + n) / b.base_size)))
              (sym (slice-take b.size b.position n (flat b.nodes) stored_there)))

-- On a valid array with `n` stored bytes from the position on, `n` at least one, read returns
-- these bytes, moves the position behind them, and leaves the stored bytes, the size, the byte
-- order and the node size as they were and the array valid.
pub read-Got :
    (b : ByteArray) (n : ℕ) → IsValid b → 0 < n → b.position + n ≤ b.size → Got b n (read b n)
unfolding read get_read_size
read-Got b n v some_bytes there = record {
  after = record b {
    position = b.position + n;
    cur = cursor b.nodes ((b.position + n) / b.base_size);
  };
  returns = rw (not_short, fetches b n v some_bytes there) refl;
  valid = record {
    positive = v.positive;
    rooted = v.rooted;
    blocks = v.blocks;
    allocated = v.allocated;
    within = v.within;
    behind = there;
    pointed = refl;
  };
  moved = refl;
  same_size = refl;
  same_endian = refl;
  same_base = refl;
}
  where
    not_short : ltb (b.size - b.position) n ≡ false
    not_short = ground arith

pub read_short :
    (b : ByteArray) (n : ℕ)
    → b.size < b.position + n
    → b.position ≤ b.size
    → read b n ≡ out_of_range
unfolding read get_read_size
read_short b n h k = ground arith

-- On a valid array whose position is its capacity, even a read of no bytes follows the null
-- pointer m_cur.
pub read_zero_at_end : (b : ByteArray) → IsValid b → b.position ≡ b.capacity → read b 0 ≡ fault
unfolding read get_read_size read_from
read_zero_at_end b v end = rw (not_short, null, read_from) refl
  where
    null : b.cur ≡ none
    null =
        v.pointed
        ∙ ap (cursor b.nodes) (
            ap (λ (t : ℕ). t / b.base_size) (omega (arith, end, v.allocated))
            ∙ div_unique b.base_size (length b.nodes) 0 v.positive)
        ∙ ground arith

    not_short : ltb (b.size - b.position) 0 ≡ false
    not_short = ground arith

-- On a valid array of less than 2 ^ 64 bytes, toString succeeds and returns the stored bytes from
-- the position on.
pub to_string_lem :
    (b : ByteArray) → IsValid b → b.size < 2 ^ 64 → to_string b ≡ ok (drop b.position (stored b))
unfolding to_string get_read_size peek
to_string_lem b v small = elim (Bool-cases (b.size - b.position == 0)) [
  | inl nothing ↦
      rw nothing (ap ok (sym (drop_all b.position (stored b) (ground (arith, length-stored b v)))))
  | inr something ↦
      rw
        (
          something,
          not_short,
          fetches b (b.size - b.position) v (ground arith) (ground (arith, v.behind)),
        )
        (ap ok (
          take_all (b.size - b.position) (drop b.position (stored b))
            (omega (arith, length-drop b.position (stored b), length-stored b v))))
]
  where
    not_short : ltb ((b.size + 2 ^ 64 - b.position) % 2 ^ 64) (b.size - b.position) ≡ false
    not_short = ground (arith, v.behind)
