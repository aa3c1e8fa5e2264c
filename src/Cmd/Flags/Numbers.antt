-- ===== src/Cmd/Flags/Numbers.antt =====
-- `strconv.ParseInt` reads what `strconv.Itoa` writes.
use chipfs.Base.{
  ℕ, zero, suc, ◌+◌, ◌-◌, ◌*◌, ◌/◌, ◌%◌, ◌^◌, ◌≤◌, ◌<◌, ◌≡◌, refl, sym, ap, ◌∙◌, inl, inr, [], ◌∷◌,
  ◌++◌, true, false, Bool-cases, ltb, some, Bytes, All, itoa, itoa_loop, itoa-IsDigit, digits_value,
  digits_value-itoa, ℤ, pos, negsuc, arith,
}
use chipfs.Cmd.Flags.{
  digit_of, digits_in, base_of, underscores_from, underscore_ok, Seen, parse_uint, parse_int,
  negative, up_to, max_int, nothing, digit,
}

abbrev IsDigit : ℕ → Type 0
IsDigit d = (48 ≤ d) × (d < 58)

digits_in-digits_value :
    (n : ℕ) (s : Bytes) → All IsDigit s → digits_in 10 n s ≡ some (digits_value n s)
unfolding digits_in digit_of digits_value
digits_in-digits_value n [] h = refl
digits_in-digits_value n (c ∷ s) h = ground (arith, digits_in-digits_value (10 * n + (c - 48)) s)

underscores_from-digits :
    (seen : Seen) (c : ℕ) (s : Bytes)
    → All IsDigit (c ∷ s)
    → underscores_from false seen (c ∷ s) ≡ true
unfolding underscores_from
underscores_from-digits seen c [] h = ground arith
underscores_from-digits seen c (d ∷ s) h = ground (arith, underscores_from-digits digit d s)

-- The text of a positive number begins with a digit that is not 0.
abbrev IsPlain : Bytes → Type 0
IsPlain s = (d : ℕ) × (ds : Bytes) × (s ≡ d ∷ ds) × (48 < d)

itoa_loop-IsPlain : (fuel n : ℕ) → n < fuel → 0 < n → IsPlain (itoa_loop fuel n)
unfolding itoa_loop
itoa_loop-IsPlain zero n h p = absurd (omega arith)
itoa_loop-IsPlain (suc fuel) n h p = elim (Bool-cases (ltb n 10)) [
  | inl small ↦ rw small (48 + n, [], refl, omega arith)
  | inr large ↦
      let (d, ds, same, high) = itoa_loop-IsPlain fuel (n / 10) (ground arith) (ground arith) in
      rw large (d, ds ++ (48 + n % 10) ∷ [], ap (λ (z : Bytes). z ++ (48 + n % 10) ∷ []) same, high)
]

base_of-plain : (d : ℕ) (ds : Bytes) → 48 < d → base_of (d ∷ ds) ≡ (10, d ∷ ds)
unfolding base_of
base_of-plain d [] h = ground arith
base_of-plain d (x ∷ []) h = ground arith
base_of-plain d (x ∷ y ∷ s) h = ground arith

underscore_ok-digits : (d : ℕ) (ds : Bytes) → All IsDigit (d ∷ ds) → underscore_ok (d ∷ ds) ≡ true
unfolding underscore_ok
underscore_ok-digits d [] h = underscores_from-digits nothing d [] h
underscore_ok-digits d (x ∷ s) h = ground (arith, underscores_from-digits nothing d (x ∷ s) h)

parse_uint-digits :
    (d : ℕ) (ds : Bytes)
    → All IsDigit (d ∷ ds)
    → 48 < d
    → parse_uint (d ∷ ds) ≡ some (digits_value 0 (d ∷ ds))
unfolding parse_uint
parse_uint-digits d ds h high =
    rw (base_of-plain d ds high, underscore_ok-digits d ds h) (digits_in-digits_value 0 (d ∷ ds) h)

itoa-IsPlain : (n : ℕ) → IsPlain (itoa (suc n))
unfolding itoa
itoa-IsPlain n = itoa_loop-IsPlain (suc (suc n)) (suc n) (omega arith) (omega arith)

parse_uint-itoa : (n : ℕ) → parse_uint (itoa n) ≡ some n
parse_uint-itoa zero =
    unfold parse_uint itoa itoa_loop base_of underscore_ok underscores_from digits_in in refl
parse_uint-itoa (suc n) =
    let (d, ds, same, high) = itoa-IsPlain n in
    ap parse_uint same
    ∙ parse_uint-digits d ds (rw same at (itoa-IsDigit (suc n))) high
    ∙ ap (λ z. some (digits_value 0 z)) (sym same)
    ∙ ap some (digits_value-itoa (suc n))

-- `strconv.Itoa`, on an int with its sign
unfoldable pub write_int : ℤ → Bytes
write_int (pos n) = itoa n
write_int (negsuc n) = 45 ∷ itoa (suc n)

abbrev pub IsInt64 : ℤ → Type 0
IsInt64 (pos n) = n < 2 ^ 63
IsInt64 (negsuc n) = n < 2 ^ 63

-- The text of a number begins with no sign.
parse_int-unsigned :
    (d : ℕ) (ds : Bytes) → 48 ≤ d → parse_int (d ∷ ds) ≡ up_to max_int pos (parse_uint (d ∷ ds))
unfolding parse_int
parse_int-unsigned d ds h = ground arith

unsigned : (n : ℕ) → parse_int (itoa n) ≡ up_to max_int pos (parse_uint (itoa n))
unsigned zero = unfold itoa itoa_loop in parse_int-unsigned 48 [] (omega arith)
unsigned (suc n) =
    let (d, ds, same, high) = itoa-IsPlain n in rw same (parse_int-unsigned d ds (omega arith))

parse_int-minus : (s : Bytes) → parse_int (45 ∷ s) ≡ up_to (2 ^ 63) negative (parse_uint s)
unfolding parse_int
parse_int-minus s = refl

-- `ParseInt` reads back every int that fits into 64 bits.
pub parse_int-write_int : (n : ℤ) → IsInt64 n → parse_int (write_int n) ≡ some n
unfolding write_int
parse_int-write_int (pos n) h = rw (unsigned n, parse_uint-itoa n) (ground arith)
parse_int-write_int (negsuc n) h =
    rw (parse_int-minus (itoa (suc n)), parse_uint-itoa (suc n)) (ground arith)
