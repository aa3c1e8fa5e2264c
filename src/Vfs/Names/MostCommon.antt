-- ===== src/Vfs/Names/MostCommon.antt =====
-- `mostCommon` of internal/vfs/vfs.go: the most frequent value, and the smallest of these.
use chipfs.Base.{
  ℕ, suc, ◌+◌, ◌≤◌, ◌<◌, ◌≡◌, refl, sym, ◌⊎◌, inl, inr, List, [], ◌∷◌, Bool, true, false, ◌&&◌,
  ◌||◌, ◌==◌, ltb, Bool-cases, if◌then◌else◌, Bytes, arith,
}
use chipfs.Formats.{equal}
use chipfs.Formats.Slices.{equal_refl, equal_sound}
use chipfs.Vfs.Names.{count, less, most_common_loop, most_common}

less_irrefl : (s : Bytes) → less s s ≡ false
unfolding less
less_irrefl [] = refl
less_irrefl (a ∷ s) = ground (arith, less_irrefl s)

less_trans : (r s t : Bytes) → less r s ≡ true → less s t ≡ true → less r t ≡ true
unfolding less
less_trans [] [] t h k = absurd (cc h)
less_trans [] (b ∷ s) [] h k = absurd (cc k)
less_trans [] (b ∷ s) (c ∷ t) h k = refl
less_trans (a ∷ r) [] t h k = absurd (cc h)
less_trans (a ∷ r) (b ∷ s) [] h k = absurd (cc k)
less_trans (a ∷ r) (b ∷ s) (c ∷ t) h k = ground (arith, less_trans r s t)

-- The values that `mostCommon` counts.
abbrev pub non_empty : List Bytes → List Bytes
non_empty [] = []
non_empty ([] ∷ values) = non_empty values
non_empty ((c ∷ v) ∷ values) = (c ∷ v) ∷ non_empty values

-- With the counts `n`, no value beats `best`.
abbrev pub IsBest : (Bytes → ℕ) → Bytes → Type 0
IsBest n best = (w : Bytes) → (n w < n best) ⊎ ((n w ≡ n best) × (less w best ≡ false))

count_same : (v : Bytes) (seen : List Bytes) → count v (v ∷ seen) ≡ suc (count v seen)
unfolding count
count_same v seen = rw (equal_refl v) refl

count_other :
    (v w : Bytes) (seen : List Bytes) → equal v w ≡ false → count w (v ∷ seen) ≡ count w seen
unfolding count
count_other v w seen h = rw h refl

count_grows : (v w : Bytes) (seen : List Bytes) → count w seen ≤ count w (v ∷ seen)
unfolding count
count_grows v w seen = ground arith

-- The test of the loop.
abbrev better : Bytes → Bytes → List Bytes → Bool
better v best seen =
    ltb (count best seen) (count v seen) || (count v seen == count best seen && less v best)

module _ (v best : Bytes) (seen : List Bytes) (h : IsBest (λ w. count w seen) best) where
  next-IsBest :
      (b : Bool)
      → better v best (v ∷ seen) ≡ b
      → IsBest (λ w. count w (v ∷ seen)) (if b then v else best)
  next-IsBest true e w = elim (Bool-cases (equal v w)) [
    | inl same ↦ rw (sym (equal_sound v w same)) (inr (refl, less_irrefl v))
    | inr other ↦
        rw (count_other v w seen other)
          (ground (arith, h w, count_grows v best seen, less_trans w v best))
  ]
  next-IsBest false e w = elim (Bool-cases (equal v w)) [
    | inl same ↦ rw (sym (equal_sound v w same)) (ground arith)
    | inr other ↦ rw (count_other v w seen other) (ground (arith, h w, count_grows v best seen))
  ]

loop_skip :
    (seen : List Bytes) (best : Bytes) (values : List Bytes)
    → most_common_loop seen best ([] ∷ values) ≡ most_common_loop seen best values
unfolding most_common_loop
loop_skip seen best values = refl

loop_step :
    (seen : List Bytes) (best : Bytes) (c : ℕ) (v : Bytes) (values : List Bytes)
    → most_common_loop seen best ((c ∷ v) ∷ values)
      ≡ most_common_loop
          ((c ∷ v) ∷ seen)
          (if better (c ∷ v) best ((c ∷ v) ∷ seen) then c ∷ v else best)
          values
unfolding most_common_loop
loop_step seen best c v values = refl

IsBest-ext :
    {n m : Bytes → ℕ} {best : Bytes} → ((w : Bytes) → n w ≡ m w) → IsBest n best → IsBest m best
IsBest-ext {n} {m} {best} e h w = rw (sym (e w), sym (e best)) (h w)

-- The counts of what was seen and of what is to come.
abbrev in_all : List Bytes → List Bytes → Bytes → ℕ
in_all seen values w = count w seen + count w (non_empty values)

in_all_step :
    (c : ℕ) (v : Bytes) (seen values : List Bytes) (w : Bytes)
    → in_all ((c ∷ v) ∷ seen) values w ≡ in_all seen ((c ∷ v) ∷ values) w
unfolding count
in_all_step c v seen values w = ground arith

most_common_loop-IsBest :
    (values seen : List Bytes) (best : Bytes)
    → IsBest (λ w. count w seen) best
    → IsBest (in_all seen values) (most_common_loop seen best values)
most_common_loop-IsBest [] seen best h =
    unfold most_common_loop count in IsBest-ext (λ w. omega arith) h
most_common_loop-IsBest ([] ∷ values) seen best h =
    rw (loop_skip seen best values) (most_common_loop-IsBest values seen best h)
most_common_loop-IsBest ((c ∷ v) ∷ values) seen best h = rw (loop_step seen best c v values) (
    IsBest-ext (in_all_step c v seen values) (
      most_common_loop-IsBest values ((c ∷ v) ∷ seen) _
        (next-IsBest (c ∷ v) best seen h (better (c ∷ v) best ((c ∷ v) ∷ seen)) refl)))

-- `mostCommon` returns a value that occurs most often among the non-empty ones, and of these the
-- smallest in the order of strings; without a non-empty value it returns the empty string.
pub most_common-IsBest :
    (values : List Bytes) → IsBest (λ w. count w (non_empty values)) (most_common values)
unfolding most_common count less
most_common-IsBest values =
    IsBest-ext (λ w. omega arith) (most_common_loop-IsBest values [] [] (λ w. inr (refl, refl)))
