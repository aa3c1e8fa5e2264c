-- ===== src/Formats/Spc/Safe.antt =====
-- `Parse` of internal/formats/spc/spc.go: it faults on no input, and the durations of the binary
-- form are bounded.
use chipfs.Base.{
  ℕ, ◌-◌, ◌≤◌, inl, inr, ◌<◌, ◌≡◌, ◌≢◌, refl, Bool, true, false, not, ◌&&◌, ◌||◌, ◌==◌, ltb, leb,
  Bool-cases, if◌then◌else◌, length, take, drop, Bytes, Result, ok, err, ◌>>=◌, arith,
}
use chipfs.Formats.{byte_at, slice, null_padded_string}
use chipfs.Formats.Slices.{byte_at-total, slice-total}
use chipfs.Formats.Spc.{
  Error, out_of_range, Header, no_tag, spc_magic, has_prefix, is_binary_format, binary_fields,
  text_fields, shared_fields, parse,
}

-- A result that is no panic.
pub data IsFaultFree : Result Error Header → Type 0 where
  ok_fault_free : (h : Header) → IsFaultFree (ok h)
  err_fault_free : (e : Error) → e ≢ out_of_range → IsFaultFree (err e)

found-IsFaultFree :
    {A : Type 0} {m : Result Error A} (f : A → Result Error Header) {a : A}
    → m ≡ ok a
    → IsFaultFree (f a)
    → IsFaultFree (m >>= f)
found-IsFaultFree f e h = rw e h

if-IsFaultFree :
    (b : Bool) {x y : Result Error Header}
    → (b ≡ true → IsFaultFree x)
    → (b ≡ false → IsFaultFree y)
    → IsFaultFree (if b then x else y)
if-IsFaultFree true h k = h refl
if-IsFaultFree false h k = k refl

module _ (bytes : Bytes) (full : 210 ≤ length bytes) where
  part :
      (i j : ℕ) → i ≤ j → j ≤ 210 → slice out_of_range bytes i j ≡ ok (take (j - i) (drop i bytes))
  part i j h k = slice-total out_of_range bytes i j h (omega arith)

  byte : (i : ℕ) → i < 210 → (b : ℕ) × (byte_at out_of_range bytes i ≡ ok b)
  byte i h = byte_at-total out_of_range bytes i (omega arith)

  binary_fields-IsFaultFree : (h : Header) → IsFaultFree (binary_fields h bytes)
  unfolding binary_fields
  binary_fields-IsFaultFree h =
      let (s_0, at_169) = byte 169 (omega arith) in
      let (s_1, at_170) = byte 170 (omega arith) in
      let (s_2, at_171) = byte 171 (omega arith) in
      let (first, at_176) = byte 176 (omega arith) in
      found-IsFaultFree _ at_169 (
        found-IsFaultFree _ at_170 (
          found-IsFaultFree _ at_171 (
            found-IsFaultFree _ (part 172 176 (omega arith) (omega arith)) (
              found-IsFaultFree _ at_176 (elim (Bool-cases (leb first 32)) [
                | inl blank ↦ rw blank (
                    found-IsFaultFree _ (part 177 209 (omega arith) (omega arith))
                      (ok_fault_free _))
                | inr letter ↦ rw letter (
                    found-IsFaultFree _ (part 176 208 (omega arith) (omega arith))
                      (ok_fault_free _))
              ])))))

  text_fields-IsFaultFree : (h : Header) → IsFaultFree (text_fields h bytes)
  unfolding text_fields
  text_fields-IsFaultFree h = found-IsFaultFree _ (part 169 172 (omega arith) (omega arith)) (
      found-IsFaultFree _ (part 172 177 (omega arith) (omega arith))
        (found-IsFaultFree _ (part 177 209 (omega arith) (omega arith)) (ok_fault_free _)))

  shared_fields-total : (h : Header) × (shared_fields bytes ≡ ok h)
  unfolding shared_fields
  shared_fields-total =
      let a = part 46 78 (omega arith) (omega arith) in
      let b = part 78 110 (omega arith) (omega arith) in
      let c = part 110 126 (omega arith) (omega arith) in
      let d = part 126 158 (omega arith) (omega arith) in
      (
        record no_tag {
          song_title = null_padded_string (take 32 (drop 46 bytes));
          game_title = null_padded_string (take 32 (drop 78 bytes));
          dumper = null_padded_string (take 16 (drop 110 bytes));
          comments = null_padded_string (take 32 (drop 126 bytes));
        },
        rw (a, b, c, d) refl,
      )

  is_binary_format-total : (b : Bool) × (is_binary_format bytes ≡ ok b)
  unfolding is_binary_format
  is_binary_format-total =
      let (date, at_160) = byte 160 (omega arith) in
      let (c, at_169) = byte 169 (omega arith) in
      elim (Bool-cases (date == 47)) [
        | inl slash ↦ (false, rw (at_160, slash) refl)
        | inr other ↦ (not (leb 48 c && leb c 57), rw (at_160, other, at_169) refl)
      ]

-- `Parse` panics on no input: every index and slice of either form of the tag lies in a file
-- that has passed the test of its length.
pub parse-IsFaultFree : (bytes : Bytes) → IsFaultFree (parse bytes)
unfolding parse
parse-IsFaultFree bytes =
    if-IsFaultFree (ltb (length bytes) 33 || not (has_prefix bytes spc_magic))
      (λ e. err_fault_free _ (λ p. cc))
      (λ e.
        if-IsFaultFree (ltb (length bytes) 210) (λ e'. err_fault_free _ (λ p. cc))
          (λ long.
            let full : 210 ≤ length bytes = ground arith in
            let (tag, at_35) = byte bytes full 35 (omega arith) in
            let (h, shared) = shared_fields-total bytes full in
            let (binary, decided) = is_binary_format-total bytes full in
            found-IsFaultFree _ at_35 (
              if-IsFaultFree (tag == 27) (λ e'. ok_fault_free _)
                (λ e'. found-IsFaultFree _ shared (
                  found-IsFaultFree _ decided (
                    if-IsFaultFree binary (λ e''. binary_fields-IsFaultFree bytes full h)
                      (λ e''. text_fields-IsFaultFree bytes full h)))))))
