-- ===== src/ByteArray/Codec/Fixed.antt =====
-- writeFint16 to writeFuint64 and readFint16 to readFuint64: integers of fixed width.
use cpp_linux_server_frame.Base.{
  ℕ, ◌^◌, ◌<◌, ◌≡◌, ap, sym, subst, ◌∙◌, List, [], ◌++◌, length, arith, append-nil, length-reverse,
}
use cpp_linux_server_frame.ByteArray.Result.{Result, ok}
use cpp_linux_server_frame.ByteArray.Memory.{ByteArray, Endian, little, big, write, set_position}
use cpp_linux_server_frame.ByteArray.Memory.Layout.{IsValid}
use cpp_linux_server_frame.ByteArray.Memory.Access.{Wrote, write-Wrote}
use cpp_linux_server_frame.ByteArray.Codec.{
  Width, w16, w32, w64, size_of, le_bytes, of_le, Host, in_order, byteswap, write_fixed, read_fixed,
}
use cpp_linux_server_frame.ByteArray.Codec.Bytes.{length-le_bytes, wire_order, byteswap-of_wire}
use cpp_linux_server_frame.ByteArray.Codec.Ahead.{
  Ahead, Reads, read-Ahead, Rewound, rewind, Reads-bind, Reads-ok,
}

-- The bytes of an integer in the order of the array.
abbrev pub wire : Endian → Width → ℕ → List ℕ
wire e w v = in_order e (le_bytes (size_of w) v)

-- A write, setPosition to where it began, and a read.
pub record RoundTrip {ℓ} {A : Type ℓ} (b : ByteArray) (v : A) (written : Result ByteArray)
    (rd : ByteArray → Result (A × ByteArray)) : Type ℓ where
  pub after : ByteArray
  pub writes : written ≡ ok after
  pub back : ByteArray
  pub rewinds : set_position after b.position ≡ ok back
  pub end : ByteArray
  pub reads : rd back ≡ ok (v, end)
  pub valid : IsValid end

pub round_trip {ℓ} :
    {A : Type ℓ} (b : ByteArray) (v : A) (buf rest : List ℕ) {written : Result ByteArray}
    (rd : ByteArray → Result (A × ByteArray))
    → IsValid b
    → Wrote b buf written
    → ((b' : ByteArray) → b'.endian ≡ b.endian → Ahead b' buf → Reads b' v rest (rd b'))
    → RoundTrip b v written rd
round_trip b v buf rest rd valid w reads = record {
  after = w.after;
  writes = w.returns;
  back = r.back;
  rewinds = r.returns;
  end = got.after;
  reads = got.returns;
  valid = got.ahead.valid;
}
  where
    r : Rewound b buf w.after.size (set_position w.after b.position)
    r = rewind b buf w valid

    got : Reads r.back v rest (rd r.back)
    got = reads r.back r.same_endian r.ahead

pub length-wire : (e : Endian) (w : Width) (v : ℕ) → length (wire e w v) ≡ size_of w
length-wire little w v = length-le_bytes (size_of w) v
length-wire big w v = length-reverse (le_bytes (size_of w) v) ∙ length-le_bytes (size_of w) v

size_of_pos : (w : Width) → 0 < size_of w
size_of_pos w16 = omega arith
size_of_pos w32 = omega arith
size_of_pos w64 = omega arith

module _ (h : Host) (w : Width) where
  -- The bytes that a fixed-width write stores are those of the integer in the byte order of the
  -- array, the order of the machine notwithstanding, when the integer fits its width.
  pub write_fixed-wire :
      (b : ByteArray) (v : ℕ)
      → v < 256 ^ size_of w
      → write_fixed h w b v ≡ write b (wire b.endian w v)
  unfolding write_fixed
  write_fixed-wire b v fits = ap (write b) (wire_order h w b.endian v fits)

  some_bytes : (e : Endian) (v : ℕ) → 0 < length (wire e w v)
  some_bytes e v = rw (length-wire e w v) (size_of_pos w)

  pub write_fixed-Wrote :
      (b : ByteArray) (v : ℕ)
      → v < 256 ^ size_of w
      → IsValid b
      → Wrote b (wire b.endian w v) (write_fixed h w b v)
  write_fixed-Wrote b v fits valid =
      rw (write_fixed-wire b v fits) (write-Wrote b (wire b.endian w v) valid)

  pub read_fixed-Reads :
      (b : ByteArray) (e : Endian) (v : ℕ) (rest : List ℕ)
      → b.endian ≡ e
      → v < 256 ^ size_of w
      → Ahead b (wire e w v ++ rest)
      → Reads b v rest (read_fixed h w b)
  unfolding read_fixed
  read_fixed-Reads b e v rest same fits a =
      Reads-bind b (wire e w v) v rest rest _
        (rw length-wire at (read-Ahead b (wire e w v) rest (some_bytes e v) a))
        (λ b' _ a'.
          Reads-ok b' _ v rest
            (ap (λ (t : Endian). byteswap h t w (of_le (in_order h.order (wire e w v)))) same
              ∙ byteswap-of_wire h w e v fits)
            a')

  -- On a valid array, an integer of 2, 4 or 8 bytes that fits its width is written, and after
  -- setPosition back to where it began it is read back, with a valid array left, whatever the
  -- byte order of the array and of the machine.
  pub fixed-RoundTrip :
      (b : ByteArray) (v : ℕ)
      → v < 256 ^ size_of w
      → IsValid b
      → RoundTrip b v (write_fixed h w b v) (read_fixed h w)
  fixed-RoundTrip b v fits valid =
      round_trip b v (wire b.endian w v) [] (read_fixed h w) valid
        (write_fixed-Wrote b v fits valid)
        (λ b' e a.
          read_fixed-Reads b' b.endian v [] e fits
            (subst (Ahead b') (sym (append-nil (wire b.endian w v))) a))
