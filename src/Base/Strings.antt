-- ===== src/Base/Strings.antt =====
-- Go's `strings.TrimSpace`, on the bytes of a string.
use Prim.Native.Nat.{ℕ, zero, suc, ◌≤◌, ◌<◌}
use mathlib.Core.Path.{◌≡◌, refl, sym, ap, ◌∙◌}
use mathlib.Core.List.{append_assoc, append-nil}
use native.Mathlib.Omega.{arith}
use mathlib.Core.Bool.{Bool, ◌&&◌, ◌||◌}
use mathlib.Core.List.{[], ◌∷◌, ◌++◌}
use chipfs.Base.Tests.{leb, ◌==◌, if◌then◌else◌}
use chipfs.Base.Lists.{length, get_or, drop, All, All-append}
use chipfs.Base.Slices.{Bytes}

-- `unicode.IsSpace`, by the UTF-8 encoding of a character of one, two or three bytes.
abbrev pub is_space : ℕ → Bool
is_space a = (leb 9 a && leb a 13) || a == 32

abbrev pub is_space_2 : ℕ → ℕ → Bool
is_space_2 a b = a == 194 && (b == 133 || b == 160)

abbrev pub is_space_3 : ℕ → ℕ → ℕ → Bool
is_space_3 a b c =
    (a == 225 && (b == 154 && c == 128))
    || ((a == 226
          && (b == 128 && ((leb 128 c && leb c 138) || (c == 168 || (c == 169 || c == 175)))))
        || ((a == 226 && (b == 129 && c == 159)) || (a == 227 && (b == 128 && c == 128))))

-- How many bytes a space takes at the front of a text, or at the front of a reversed one.
unfoldable pub width : Bytes → ℕ
width [] = 0
width (a ∷ s) =
    if is_space a
    then 1
    else if is_space_2 a (get_or s 0 0)
    then 2
    else if is_space_3 a (get_or s 0 0) (get_or s 1 0)
    then 3
    else 0

unfoldable pub width_back : Bytes → ℕ
width_back [] = 0
width_back (a ∷ s) =
    if is_space a
    then 1
    else if is_space_2 (get_or s 0 0) a
    then 2
    else if is_space_3 (get_or s 1 0) (get_or s 0 0) a
    then 3
    else 0

-- Drops a space as long as there is one, on fuel: a round drops a byte at least.
unfoldable pub trim_by : (Bytes → ℕ) → ℕ → Bytes → Bytes
trim_by spaces zero s = s
trim_by spaces (suc fuel) s = elim (spaces s) [
  | zero ↦ s
  | suc n ↦ trim_by spaces fuel (drop (suc n) s)
]

abbrev pub reverse_bytes : Bytes → Bytes
reverse_bytes [] = []
reverse_bytes (b ∷ s) = reverse_bytes s ++ b ∷ []

-- `strings.TrimSpace`
unfoldable pub trim_space : Bytes → Bytes
unfolding trim_by width width_back
trim_space s =
    let front = trim_by width (length s) s in
    reverse_bytes (trim_by width_back (length front) (reverse_bytes front))

module _ {κ} (P : ℕ → Type κ) where
  drop-All : (n : ℕ) (s : Bytes) → All P s → All P (drop n s)
  drop-All zero s h = h
  drop-All (suc n) [] h = h
  drop-All (suc n) (b ∷ s) h = drop-All n s h.1

  pub reverse_bytes-All : (s : Bytes) → All P s → All P (reverse_bytes s)
  reverse_bytes-All [] h = h
  reverse_bytes-All (b ∷ s) h =
      All-append P (reverse_bytes s) (b ∷ []) (reverse_bytes-All s h.1) (h.0, tt)

  trim_by-All :
      (spaces : Bytes → ℕ) (fuel : ℕ) (s : Bytes) → All P s → All P (trim_by spaces fuel s)
  unfolding trim_by
  trim_by-All spaces zero s h = h
  trim_by-All spaces (suc fuel) s h =
      round (spaces s) (λ n. trim_by-All spaces fuel (drop n s) (drop-All n s h))
    where
      round :
          (w : ℕ)
          → ((n : ℕ) → All P (trim_by spaces fuel (drop n s)))
          → All P (elim w [ zero ↦ s | suc n ↦ trim_by spaces fuel (drop (suc n) s) ])
      round zero later = h
      round (suc n) later = later (suc n)

  -- What holds of every byte of a text holds of every byte that `TrimSpace` leaves.
  pub trim_space-All : (s : Bytes) → All P s → All P (trim_space s)
  unfolding trim_space
  trim_space-All s h =
      let front = trim_by width (length s) s in
      reverse_bytes-All (trim_by width_back (length front) (reverse_bytes front)) (
        trim_by-All width_back (length front) (reverse_bytes front)
          (reverse_bytes-All front (trim_by-All width (length s) s h)))

-- A visible character of ASCII
abbrev pub IsVisible : ℕ → Type 0
IsVisible b = (33 ≤ b) × (b < 128)

width_visible : (s : Bytes) → All IsVisible s → width s ≡ 0
unfolding width
width_visible [] h = refl
width_visible (a ∷ s) h = ground (arith, h.0)

width_back_visible : (s : Bytes) → All IsVisible s → width_back s ≡ 0
unfolding width_back
width_back_visible [] h = refl
width_back_visible (a ∷ s) h = ground (arith, h.0)

trim_by-id : (spaces : Bytes → ℕ) (fuel : ℕ) (s : Bytes) → spaces s ≡ 0 → trim_by spaces fuel s ≡ s
unfolding trim_by
trim_by-id spaces zero s h = refl
trim_by-id spaces (suc fuel) s h = rw (h, trim_by) refl

pub reverse_bytes-append :
    (s t : Bytes) → reverse_bytes (s ++ t) ≡ reverse_bytes t ++ reverse_bytes s
reverse_bytes-append [] t = sym (append-nil (reverse_bytes t))
reverse_bytes-append (b ∷ s) t =
    rw (reverse_bytes-append s t) (append_assoc (reverse_bytes t) (reverse_bytes s) (b ∷ []))

pub reverse_bytes_twice : (s : Bytes) → reverse_bytes (reverse_bytes s) ≡ s
reverse_bytes_twice [] = refl
reverse_bytes_twice (b ∷ s) =
    reverse_bytes-append (reverse_bytes s) (b ∷ [])
    ∙ ap (λ (z : Bytes). b ∷ z) (reverse_bytes_twice s)

-- A text that is empty or begins with a visible character
abbrev pub Begins : Bytes → Type 0
Begins [] = Unit
Begins (b ∷ s) = IsVisible b

width_Begins : (s : Bytes) → Begins s → width s ≡ 0
unfolding width
width_Begins [] h = refl
width_Begins (a ∷ s) h = ground (arith, h)

width_back_Begins : (s : Bytes) → Begins s → width_back s ≡ 0
unfolding width_back
width_back_Begins [] h = refl
width_back_Begins (a ∷ s) h = ground (arith, h)

-- A text that begins and ends with a visible character is not trimmed.
pub trim_space_ends : (s : Bytes) → Begins s → Begins (reverse_bytes s) → trim_space s ≡ s
unfolding trim_space
trim_space_ends s front back =
    rw
      (
        trim_by-id width (length s) s (width_Begins s front),
        trim_by-id width_back (length s) (reverse_bytes s)
            (width_back_Begins (reverse_bytes s) back),
      )
      (reverse_bytes_twice s)

-- A text without spaces is not trimmed.
pub trim_space_visible : (s : Bytes) → All IsVisible s → trim_space s ≡ s
unfolding trim_space
trim_space_visible s h =
    rw
      (
        trim_by-id width (length s) s (width_visible s h),
        trim_by-id width_back (length s) (reverse_bytes s)
            (width_back_visible (reverse_bytes s) (reverse_bytes-All IsVisible s h)),
      )
      (reverse_bytes_twice s)
