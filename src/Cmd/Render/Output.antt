-- ===== src/Cmd/Render/Output.antt =====
-- The name that cmd/render/main.go gives the output, when none is given.
use mathlib.Core.List.{append_assoc}
use chipfs.Base.{
  ℕ, suc, ◌-◌, ◌≡◌, ◌≢◌, refl, sym, ap, ◌∙◌, [], ◌∷◌, ◌++◌, true, leb, length, length-append,
  take-length_append, drop-length_append, le→leb, All, All-append, Bytes, text, pos, arith,
}
use chipfs.Formats.Slices.{equal_refl}
use chipfs.Vfs.Parsers.{ext_back, reversed}
use chipfs.Vfs.Paths.{base}
use chipfs.Vfs.Paths.Behind.{IsPart, IsDirectory, base-IsDirectory, ext_back-dot}
use chipfs.Vfs.Tracks.{two_digits}
use chipfs.Cmd.Render.{trim_suffix, default_out}

trim_suffix-append : (s suffix : Bytes) → trim_suffix (s ++ suffix) suffix ≡ s
unfolding trim_suffix
trim_suffix-append s suffix =
    let sum = length-append s suffix in
    let front : length (s ++ suffix) - length suffix ≡ length s = omega (arith, sum) in
    let fits : leb (length suffix) (length (s ++ suffix)) ≡ true =
      le→leb _ _ (omega (arith, sum)) in
    rw
      (
        trim_suffix,
        front,
        fits,
        drop-length_append s suffix,
        equal_refl suffix,
        take-length_append s suffix,
      )
      refl

pub default_out_lem :
    {front : Bytes} (stem ext : Bytes) (i : ℕ)
    → IsDirectory front
    → IsPart stem
    → IsPart ext
    → All (λ b. b ≢ 46) ext
    → default_out (front ++ (stem ++ 46 ∷ ext)) (pos i)
      ≡ stem ++ (text "_track" ++ (two_digits (suc i) ++ text ".wav"))
unfolding default_out
default_out_lem {front} stem ext i dir part part' dotless =
    let whole : IsPart (stem ++ 46 ∷ ext) =
      All-append (λ b. b ≢ 47) stem (46 ∷ ext) part (ground arith, part') in
    let named : base (front ++ (stem ++ 46 ∷ ext)) ≡ stem ++ 46 ∷ ext =
      base-IsDirectory (stem ++ 46 ∷ ext) dir whole
        (omega (arith, length-append stem (46 ∷ ext))) in
    let ending : ext_back (reversed (front ++ (stem ++ 46 ∷ ext)) []) [] ≡ 46 ∷ ext =
      ap (λ (z : Bytes). ext_back (reversed z []) []) (sym (append_assoc front stem (46 ∷ ext)))
      ∙ ext_back-dot (front ++ stem) ext part' dotless in
    rw (default_out, named, ending, trim_suffix-append stem (46 ∷ ext)) refl
