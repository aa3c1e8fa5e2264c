-- ===== src/Vfs/Tracks/Named.antt =====
-- What `buildTrackList` of internal/vfs/vfs.go makes of a title and of a duration, in terms of the
-- file alone.
use chipfs.Base.{
  ℕ, zero, suc, ◌≤◌, ◌≡◌, refl, [], ◌∷◌, ◌++◌, true, false, All, Bytes, text, length, ltb,
  Bool-cases, trim_space, itoa, digits_value-itoa, ◌⊎◌, itoa-ne-nil, itoa_wide, inl, inr,
  itoa-IsDigit, digits_value, ℤ, pos, negsuc, min, arith,
}
use chipfs.Vfs.{clamp_ms}
use chipfs.Vfs.Names.{clean_tag}
use chipfs.Formats.{equal}
use chipfs.Vfs.Names.Tidy.{clean_tag-IsTidy, IsName, sanitize_filename-IsName}
use chipfs.Vfs.Tracks.{two_digits, title_of, filename_of}
use chipfs.Vfs.Tracks.Distinct.{IsDigit, two_digits-IsDigit, value-two_digits}

-- How long a track lasts by the duration in its file: that long, up to the limit, if the duration
-- is positive, and else the standard, up to the limit.
abbrev pub Lasts : ℤ → ℕ → ℕ → ℕ → Type 0
Lasts (pos (suc n)) standard limit ms = ms ≡ min (suc n) limit
Lasts (pos zero) standard limit ms = ms ≡ min standard limit
Lasts (negsuc n) standard limit ms = ms ≡ min standard limit

pub clamp_ms-Lasts :
    (ms : ℤ) (standard limit : ℕ) → Lasts ms standard limit (clamp_ms ms standard limit)
unfolding clamp_ms
clamp_ms-Lasts (pos zero) standard limit = refl
clamp_ms-Lasts (pos (suc n)) standard limit = refl
clamp_ms-Lasts (negsuc n) standard limit = refl

-- The decimal digits of a number, two of them at least.
pub record IsNumber (n : ℕ) (digits : Bytes) : Type 0 where
  pub decimal : All IsDigit digits
  pub value : digits_value 0 digits ≡ n
  pub wide : 2 ≤ length digits

two_digits_wide : (n : ℕ) → 2 ≤ length (two_digits n)
unfolding two_digits
two_digits_wide n = elim (Bool-cases (ltb n 10)) [
  | inl small ↦ rw small (omega (arith, itoa-ne-nil n))
  | inr large ↦ rw large (itoa_wide n (ground arith))
]

pub two_digits-IsNumber : (n : ℕ) → IsNumber n (two_digits n)
two_digits-IsNumber n = record {
  decimal = two_digits-IsDigit n;
  value = value-two_digits n;
  wide = two_digits_wide n;
}

pub title_of-IsName : (title : Bytes) (i : ℕ) → IsName title → title_of title i ≡ title
unfolding title_of
title_of-IsName [] i h = absurd (h.some_text refl)
title_of-IsName (c ∷ title) i h = refl

pub filename_of_numbered :
    (title : Bytes) (i : ℕ)
    → IsName title
    → filename_of false title i ≡ two_digits (suc i) ++ (text " - " ++ (title ++ text ".wav"))
unfolding filename_of
filename_of_numbered [] i h = absurd (h.some_text refl)
filename_of_numbered (c ∷ title) i h = rw (sanitize_filename-IsName (c ∷ title) h) refl

pub filename_of_single :
    (title : Bytes) (i : ℕ) → IsName title → filename_of true title i ≡ title ++ text ".wav"
unfolding filename_of
filename_of_single title i h = rw (title_of-IsName title i h, sanitize_filename-IsName title h) refl

-- A title that the file does not have
abbrev pub IsMissing : Bytes → Type 0
IsMissing raw = (raw ≡ []) ⊎ ((raw ≡ text "?") ⊎ (raw ≡ text "<?>"))

clean_tag-IsMissing : (raw : Bytes) → IsMissing raw → clean_tag raw ≡ []
unfolding clean_tag trim_space equal
clean_tag-IsMissing raw (inl e) = rw e refl
clean_tag-IsMissing raw (inr (inl e)) = rw e refl
clean_tag-IsMissing raw (inr (inr e)) = rw e refl

-- The title and the file name that the track at the place `i` gets by the title in its file: that
-- title and its number and title, or, without a title, its number alone.
pub data IsTitled (i : ℕ) : Bytes → Bytes → Bytes → Type 0 where
  titled :
      {title : Bytes} (digits : Bytes)
      → IsName title
      → IsNumber (suc i) digits
      → IsTitled i title title (digits ++ (text " - " ++ (title ++ text ".wav")))
  untitled :
      {raw : Bytes} (number digits : Bytes)
      → IsMissing raw
      → digits_value 0 number ≡ suc i
      → All IsDigit number
      → IsNumber (suc i) digits
      → IsTitled i raw (text "Track " ++ number) (text "Track_" ++ (digits ++ text ".wav"))

pub filename_of-IsTitled :
    (raw : Bytes) (i : ℕ)
    → IsName raw ⊎ IsMissing raw
    → IsTitled i raw (title_of (clean_tag raw) i) (filename_of false (clean_tag raw) i)
unfolding title_of filename_of
filename_of-IsTitled raw i (inl name) =
    rw (clean_tag-IsTidy raw name.tidy, title_of-IsName raw i name, filename_of_numbered raw i name)
      (titled (two_digits (suc i)) name (two_digits-IsNumber (suc i)))
filename_of-IsTitled raw i (inr missing) = rw (clean_tag-IsMissing raw missing) (
    untitled (itoa (suc i)) (two_digits (suc i)) missing (digits_value-itoa (suc i))
      (itoa-IsDigit (suc i)) (two_digits-IsNumber (suc i)))
