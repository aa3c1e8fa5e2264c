-- ===== src/Formats/Slices.antt =====
-- Lemmas on the slices and the padded strings of internal/formats.
use chipfs.Base.{
  ℕ, zero, suc, ◌+◌, ◌-◌, ◌≤◌, ◌<◌, ◌≡◌, ◌≢◌, refl, sym, ap, ◌∙◌, [], ◌∷◌, ◌++◌, true, le→leb,
  length, take, drop, replicate, All, none, some, Bytes, ok, arith, length-append,
  take-length_append,
}
use mathlib.Core.List.{append-nil}
use chipfs.Formats.{equal, index_byte, null_padded_string, byte_at, slice}

abbrev pub IsNotNull : ℕ → Type 0
IsNotNull b = b ≢ 0

pub equal_refl : (s : Bytes) → equal s s ≡ true
unfolding equal
equal_refl [] = refl
equal_refl (b ∷ s) = ground (arith, equal_refl s)

pub index_byte_found :
    (s rest : Bytes) → All IsNotNull s → index_byte (s ++ 0 ∷ rest) 0 ≡ some (length s)
unfolding index_byte
index_byte_found [] rest h = refl
index_byte_found (b ∷ s) rest h = rw (index_byte_found s rest h.1) (ground (arith, h.0))

index_byte_absent : (s : Bytes) → All IsNotNull s → index_byte s 0 ≡ none
unfolding index_byte
index_byte_absent [] h = refl
index_byte_absent (b ∷ s) h = rw (index_byte_absent s h.1) (ground (arith, h.0))

-- A string without a null is found in a field that it fills, or that is padded with nulls.
pub null_padded_string-append :
    (s : Bytes) (n : ℕ) → All IsNotNull s → null_padded_string (s ++ replicate n 0) ≡ s
unfolding null_padded_string
null_padded_string-append s zero h =
    rw (append-nil s, null_padded_string, index_byte_absent s h) (append-nil s)
null_padded_string-append s (suc n) h =
    rw (null_padded_string, index_byte_found s (replicate n 0) h)
      (take-length_append s (0 ∷ replicate n 0))

module _ {E : Type 0} (fault : E) where
  -- Inside the bounds an index and a slice give a value.
  pub byte_at-total : (s : Bytes) (i : ℕ) → i < length s → (b : ℕ) × (byte_at fault s i ≡ ok b)
  unfolding byte_at
  byte_at-total [] i h = absurd (omega arith)
  byte_at-total (b ∷ s) zero h = (b, refl)
  byte_at-total (b ∷ s) (suc i) h = byte_at-total s i (omega arith)

  pub slice-total :
      (s : Bytes) (i j : ℕ)
      → i ≤ j
      → j ≤ length s
      → slice fault s i j ≡ ok (take (j - i) (drop i s))
  unfolding slice
  slice-total s i j h k = rw (le→leb i j h, le→leb j (length s) k) refl

  -- The slice at the front of a text.
  pub slice-append :
      (mid rest : Bytes) (n : ℕ) → length mid ≡ n → slice fault (mid ++ rest) 0 n ≡ ok mid
  slice-append mid rest n h =
      let all : n - 0 ≡ length mid = omega (arith, h) in
      slice-total (mid ++ rest) 0 n (omega arith) (omega (arith, length-append mid rest))
      ∙ rw all (ap ok (take-length_append mid rest))

  slice_step :
      (c : ℕ) (s : Bytes) (k l : ℕ) → slice fault (c ∷ s) (suc k) (suc l) ≡ slice fault s k l
  unfolding slice
  slice_step c s k l = ground arith

  -- A slice behind the front of a text is one of the rest.
  pub slice_skip :
      (front rest : Bytes) (i j : ℕ)
      → length front ≤ i
      → length front ≤ j
      → slice fault (front ++ rest) i j ≡ slice fault rest (i - length front) (j - length front)
  slice_skip [] rest i j h k =
      let same_i : i - 0 ≡ i = omega arith in
      let same_j : j - 0 ≡ j = omega arith in rw (same_i, same_j) refl
  slice_skip (b ∷ front) rest zero j h k = absurd (omega arith)
  slice_skip (b ∷ front) rest (suc i) zero h k = absurd (omega arith)
  slice_skip (b ∷ front) rest (suc i) (suc j) h k =
      let less_i : suc i - suc (length front) ≡ i - length front = omega arith in
      let less_j : suc j - suc (length front) ≡ j - length front = omega arith in
      rw (less_i, less_j)
        (slice_step b (front ++ rest) i j ∙ slice_skip front rest i j (omega arith) (omega arith))

  -- The field of a text that begins with `front`.
  pub slice_field :
      (front mid rest : Bytes) (i j : ℕ)
      → length front ≡ i
      → i + length mid ≡ j
      → slice fault (front ++ (mid ++ rest)) i j ≡ ok mid
  slice_field front mid rest i j h k =
      let start : i - length front ≡ 0 = omega (arith, h) in
      let size : j - length front ≡ length mid = omega (arith, h, k) in
      slice_skip front (mid ++ rest) i j (omega (arith, h)) (omega (arith, h, k))
      ∙ rw (start, size) (slice-append mid rest (length mid) refl)

  -- The slice up to the end of a text.
  pub slice_end :
      (front rest : Bytes) (i : ℕ)
      → length front ≡ i
      → slice fault (front ++ rest) i (length (front ++ rest)) ≡ ok rest
  slice_end front rest i h =
      sym
        (ap (λ (z : Bytes). slice fault (front ++ z) i (length (front ++ rest))) (append-nil rest))
      ∙ slice_field front rest [] i (length (front ++ rest)) h
          (omega (arith, h, length-append front rest))

pub equal_sound : (x y : Bytes) → equal x y ≡ true → x ≡ y
unfolding equal
equal_sound [] [] h = refl
equal_sound [] (b ∷ y) h = absurd (cc h)
equal_sound (a ∷ x) [] h = absurd (cc h)
equal_sound (a ∷ x) (b ∷ y) h =
    let (same_head, same_tail) : (a ≡ b) × (equal x y ≡ true) = ground arith in
    cc (same_head, equal_sound x y same_tail)
