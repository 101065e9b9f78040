-- ===== src/ByteArray/Codec/Ahead.antt =====
-- A reader's view: which bytes lie ahead of the position. Every format is read back in its terms.
use cpp_linux_server_frame.Base.{
  ℕ, ◌+◌, ◌≤◌, ◌<◌, ◌≡◌, refl, ap, ap₂, sym, ◌∙◌, List, ◌++◌, length, length-append, take, drop,
  length-drop, arith,
}
use cpp_linux_server_frame.ByteArray.Result.{Result, ok, ◌>>=◌}
use cpp_linux_server_frame.ByteArray.Memory.{ByteArray, read, set_position}
use cpp_linux_server_frame.ByteArray.Memory.Blocks.{flat}
use cpp_linux_server_frame.ByteArray.Memory.Layout.{
  IsValid, stored, MovedTo, set_position-MovedTo, length-stored,
}
use cpp_linux_server_frame.ByteArray.Memory.Access.{View, view, get, Wrote, Got, read-Got}
use cpp_linux_server_frame.ByteArray.Memory.Slices.{
  take_add, drop-drop, take-append_self, drop-append_self, slice-copy_to, length-take_le,
}

append_parts : (a b x y : List ℕ) → a ++ b ≡ x ++ y → length a ≡ length x → (a ≡ x) × (b ≡ y)
append_parts a b x y e len = (
  sym (take-append_self a b) ∙ ap₂ (λ (n : ℕ) (t : List ℕ). take n t) len e ∙ take-append_self x y,
  sym (drop-append_self a b) ∙ ap₂ (λ (n : ℕ) (t : List ℕ). drop n t) len e ∙ drop-append_self x y,
)

-- `bytes` are the next bytes of a valid array.
pub record Ahead (b : ByteArray) (bytes : List ℕ) : Type 0 where
  pub valid : IsValid b
  pub there : b.position + length bytes ≤ b.size
  pub same : get (view b) (length bytes) ≡ bytes

-- An operation that reads `v` and leaves `rest` ahead.
pub record Reads {ℓ} {A : Type ℓ} (b : ByteArray) (v : A) (rest : List ℕ)
    (r : Result (A × ByteArray)) : Type ℓ where
  pub after : ByteArray
  pub returns : r ≡ ok (v, after)
  pub ahead : Ahead after rest
  pub same_endian : after.endian ≡ b.endian
  pub same_stored : stored after ≡ stored b

-- read takes the first bytes that lie ahead.
pub read-Ahead :
    (b : ByteArray) (x y : List ℕ)
    → 0 < length x
    → Ahead b (x ++ y)
    → Reads b x y (read b (length x))
read-Ahead b x y some_bytes a = record {
  after = g.after;
  returns = g.returns ∙ ap (λ (t : List ℕ). ok (t, g.after)) first;
  ahead = record {
    valid = g.valid;
    there = omega (arith, ap View.at g.moved, g.same_size, a.there, length-append x y);
    same =
        ap₂ (λ (t : List ℕ) (n : ℕ). take (length y) (drop n t)) (ap View.bytes g.moved)
          (ap View.at g.moved)
        ∙ second;
  };
  same_endian = g.same_endian;
  same_stored = ap View.bytes g.moved;
}
  where
    g : Got b (length x) (read b (length x))
    g = read-Got b (length x) a.valid some_bytes (omega (arith, a.there, length-append x y))

    parts :
        (take (length x) (drop b.position (stored b)) ≡ x)
        × (take (length y) (drop (length x) (drop b.position (stored b))) ≡ y)
    parts =
        append_parts (take (length x) (drop b.position (stored b)))
          (take (length y) (drop (length x) (drop b.position (stored b)))) x y
          (sym (take_add (length x) (length y) (drop b.position (stored b)))
            ∙ ap (λ (t : ℕ). take t (drop b.position (stored b))) (sym (length-append x y))
            ∙ a.same)
          (length-take_le (length x) (drop b.position (stored b)) (
            omega (
              arith,
              length-drop b.position (stored b),
              length-stored b a.valid,
              a.there,
              length-append x y,
            )))

    first : take (length x) (drop b.position (stored b)) ≡ x
    first = parts.0

    second : take (length y) (drop (b.position + length x) (stored b)) ≡ y
    second = ap (take (length y)) (sym (drop-drop (length x) b.position (stored b))) ∙ parts.1

-- A read, and what is read behind it.
pub Reads-bind {ℓ κ} :
    {A : Type ℓ} {B : Type κ} (b : ByteArray) (x : A) (v : B) (mid rest : List ℕ)
    {r : Result (A × ByteArray)} (k : A × ByteArray → Result (B × ByteArray))
    → Reads b x mid r
    → ((a : ByteArray) → a.endian ≡ b.endian → Ahead a mid → Reads a v rest (k (x, a)))
    → Reads b v rest (r >>= k)
Reads-bind b x v mid rest k first next =
    let second = next first.after first.same_endian first.ahead in
    record {
      after = second.after;
      returns = rw first.returns second.returns;
      ahead = second.ahead;
      same_endian = second.same_endian ∙ first.same_endian;
      same_stored = second.same_stored ∙ first.same_stored;
    }

-- The value of a read is computed with.
pub Reads-ok {ℓ} :
    {A : Type ℓ} (b : ByteArray) (x v : A) (rest : List ℕ)
    → x ≡ v
    → Ahead b rest
    → Reads b v rest (ok (x, b))
Reads-ok b x v rest e a = record {
  after = b;
  returns = ap (λ t. ok (t, b)) e;
  ahead = a;
  same_endian = refl;
  same_stored = refl;
}

-- What was written lies ahead once the position is set back.
pub record Rewound (b : ByteArray) (buf : List ℕ) (size : ℕ) (r : Result ByteArray) : Type 0 where
  pub back : ByteArray
  pub returns : r ≡ ok back
  pub ahead : Ahead back buf
  pub at_start : back.position ≡ b.position
  pub same_size : back.size ≡ size
  pub same_endian : back.endian ≡ b.endian

pub rewind :
    (b : ByteArray) (buf : List ℕ) {r : Result ByteArray} (w : Wrote b buf r)
    → IsValid b
    → Rewound b buf w.after.size (set_position w.after b.position)
rewind b buf w v = record {
  back = m.moved;
  returns = m.returns;
  ahead = record {
    valid = m.valid;
    there = omega (arith, m.at_val, m.covers, w.covers);
    same =
        ap₂ (λ (t : List ℕ) (n : ℕ). take (length buf) (drop n t)) kept m.at_val
        ∙ ap (λ (t : List ℕ). take (length buf) (drop b.position t)) (ap View.bytes w.refines)
        ∙ slice-copy_to (stored b) b.position buf (omega (arith, length-stored b v, v.behind));
  };
  at_start = m.at_val;
  same_size = m.covers ∙ omega (arith, w.covers);
  same_endian = m.same_endian ∙ w.same_endian;
}
  where
    m : MovedTo w.after b.position (set_position w.after b.position)
    m = set_position-MovedTo w.after b.position w.valid (omega (arith, w.covers, w.valid.within))

    kept : stored m.moved ≡ stored w.after
    kept =
        ap₂ (λ (n : ℕ) (t : List (List ℕ)). take n (flat t)) (m.covers ∙ omega (arith, w.covers))
          m.same_nodes
