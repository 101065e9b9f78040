-- ===== src/ByteArray/Codec/Strings.antt =====
-- Strings behind their length: fields of 16, 32 and 64 bits, and the variable-length field.
use native.Mathlib.Nat.{mod-eq_of_lt}
use cpp_linux_server_frame.Base.{
  ℕ, ◌+◌, ◌^◌, ◌<◌, ◌≤◌, ◌≡◌, refl, ap, ap₂, sym, subst, ◌∙◌, List, [], ◌++◌, length, arith,
  append-nil, length-append,
}
use cpp_linux_server_frame.ByteArray.Result.{Result, ok, out_of_range, ◌>>=◌}
use cpp_linux_server_frame.ByteArray.Memory.{ByteArray, write, set_position}
use cpp_linux_server_frame.ByteArray.Memory.Slices.{copy_to-copy_to}
use cpp_linux_server_frame.ByteArray.Memory.Layout.{IsValid, stored, length-stored}
use cpp_linux_server_frame.ByteArray.Memory.Access.{View, put, Wrote, write-Wrote, read_short}
use cpp_linux_server_frame.ByteArray.Codec.{
  Width, size_of, Host, read_fixed, write_string, read_string, write_string_vint, read_string_vint,
}
use cpp_linux_server_frame.ByteArray.Codec.Ahead.{Ahead, Rewound, rewind, read-Ahead, Reads-bind}
use cpp_linux_server_frame.ByteArray.Codec.Fixed.{
  RoundTrip, round_trip, wire, write_fixed-Wrote, read_fixed-Reads,
}
use cpp_linux_server_frame.ByteArray.Codec.Varint.{groups64, write_uint64-Wrote, length-one_group}

-- Two writes, one behind the other, are one.
Wrote-append :
    (b : ByteArray) (x y : List ℕ) {r : Result ByteArray}
    → IsValid b
    → Wrote b x r
    → Wrote b (x ++ y) (r >>= λ b'. write b' y)
Wrote-append b x y v first = record {
  after = second.after;
  returns = rw first.returns second.returns;
  valid = second.valid;
  refines =
      second.refines
      ∙ ap (λ (t : View). put t y) first.refines
      ∙ ap₂ (λ (t : List ℕ) (n : ℕ). record { bytes = t; at = n })
          (copy_to-copy_to (stored b) b.position x y (omega (arith, length-stored b v, v.behind)))
          (omega (arith, length-append x y));
  covers = omega (arith, second.covers, first.covers, length-append x y, ap View.at first.refines);
  same_endian = second.same_endian ∙ first.same_endian;
  same_base = second.same_base ∙ first.same_base;
}
  where
    second : Wrote first.after y (write first.after y)
    second = write-Wrote first.after y first.valid

module _ (h : Host) (w : Width) where
  write_string-Wrote :
      (b : ByteArray) (s : List ℕ)
      → length s < 256 ^ size_of w
      → IsValid b
      → Wrote b (wire b.endian w (length s) ++ s) (write_string h w b s)
  unfolding write_string
  write_string-Wrote b s fits v =
      rw (mod-eq_of_lt fits) (
        Wrote-append b (wire b.endian w (length s)) s v (write_fixed-Wrote h w b (length s) fits v))

  -- On a valid array, a string that is not empty and whose length fits the length field (of 2, 4
  -- or 8 bytes) is written, and after setPosition back to where it began it is read back, with a
  -- valid array left.
  pub string-RoundTrip :
      (b : ByteArray) (s : List ℕ)
      → 0 < length s
      → length s < 256 ^ size_of w
      → IsValid b
      → RoundTrip b s (write_string h w b s) (read_string h w)
  unfolding read_string
  string-RoundTrip b s some_bytes fits v =
      round_trip b s (wire b.endian w (length s) ++ s) [] (read_string h w) v
        (write_string-Wrote b s fits v)
        (λ b' e a.
          Reads-bind b' (length s) s s [] _ (read_fixed-Reads h w b' b.endian (length s) s e fits a)
            (λ c _ a'. read-Ahead c s [] some_bytes (subst (Ahead c) (sym (append-nil s)) a')))

-- What writeStringVint wrote, in bytes.
write_string_vint-Wrote :
    (b : ByteArray) (s : List ℕ)
    → length s < 2 ^ 64
    → IsValid b
    → Wrote b (groups64 (length s) ++ s) (write_string_vint b s)
unfolding write_string_vint
write_string_vint-Wrote b s fits v =
    Wrote-append b (groups64 (length s)) s v (write_uint64-Wrote b (length s) fits v)

-- A string of up to six bytes that writeStringVint appended is not read back by readStringVint,
-- which looks for a length of eight bytes and throws.
pub record NotReadBack (b : ByteArray) (written : Result ByteArray)
    (rd : ByteArray → Result (List ℕ × ByteArray)) : Type 0 where
  pub after : ByteArray
  pub writes : written ≡ ok after
  pub back : ByteArray
  pub rewinds : set_position after b.position ≡ ok back
  pub throws : rd back ≡ out_of_range

-- A string of up to six bytes that writeStringVint appends at the end of a valid array is not
-- read back: after setPosition to where it began, readStringVint throws out_of_range.
string_vint-NotReadBack :
    (h : Host) (b : ByteArray) (s : List ℕ)
    → IsValid b
    → b.position ≡ b.size
    → length s ≤ 6
    → NotReadBack b (write_string_vint b s) (read_string_vint h)
unfolding read_string_vint read_fixed
string_vint-NotReadBack h b s v at_end short = record {
  after = w.after;
  writes = w.returns;
  back = r.back;
  rewinds = r.returns;
  throws =
      rw
        (read_short r.back 8 (omega (arith, r.same_size, r.at_start, w.covers, written))
          r.ahead.valid.behind)
        refl;
}
  where
    w : Wrote b (groups64 (length s) ++ s) (write_string_vint b s)
    w = write_string_vint-Wrote b s (omega arith) v

    r : Rewound b (groups64 (length s) ++ s) w.after.size (set_position w.after b.position)
    r = rewind b (groups64 (length s) ++ s) w v

    written : length (groups64 (length s) ++ s) ≡ 1 + length s
    written =
        length-append (groups64 (length s)) s
        ∙ ap (λ (t : ℕ). t + length s) (length-one_group (length s) (omega arith))
