-- ===== src/Vfs/Tracks/Distinct.antt =====
-- The file names of the numbered tracks of one file in internal/vfs/vfs.go are different.
use chipfs.Base.{
  ℕ, suc, ◌≤◌, ◌<◌, ◌≡◌, ◌≢◌, refl, sym, ap, ◌∙◌, List, [], ◌∷◌, ◌++◌, Bool, true, false, ◌&&◌, ltb,
  leb, if◌then◌else◌, length, drop, All, Bytes, itoa, itoa-IsDigit, itoa-ne-nil, digits_value,
  digits_value-itoa, arith,
}
use chipfs.Vfs.{TrackEntry}
use chipfs.Vfs.Tracks.{
  ChipTrack, ChipFile, two_digits, filename_of, build_entry, build_entries, track_list,
}

-- The digits that a text begins with
digits_of : Bytes → Bytes
digits_of [] = []
digits_of (b ∷ s) = if leb 48 b && ltb b 58 then b ∷ digits_of s else []

abbrev pub IsDigit : ℕ → Type 0
IsDigit d = (48 ≤ d) × (d < 58)

digits_of-append :
    (ds : Bytes) (c : ℕ) (s : Bytes) → All IsDigit ds → c < 48 → digits_of (ds ++ c ∷ s) ≡ ds
unfolding digits_of
digits_of-append [] c s h low = ground arith
digits_of-append (d ∷ ds) c s h low = rw (digits_of-append ds c s h.1 low) (ground (arith, h.0))

pub two_digits-IsDigit : (n : ℕ) → All IsDigit (two_digits n)
unfolding two_digits
two_digits-IsDigit n = choose (ltb n 10) (itoa-IsDigit n)
  where
    choose : (b : Bool) → All IsDigit (itoa n) → All IsDigit (if b then 48 ∷ itoa n else itoa n)
    choose true h = (omega arith, h)
    choose false h = h

pub value-two_digits : (n : ℕ) → digits_value 0 (two_digits n) ≡ n
unfolding two_digits
value-two_digits n = choose (ltb n 10) (digits_value-itoa n)
  where
    choose :
        (b : Bool)
        → digits_value 0 (itoa n) ≡ n
        → digits_value 0 (if b then 48 ∷ itoa n else itoa n) ≡ n
    choose true h = unfold digits_value in h
    choose false h = h

two_digits-ne-nil : (n : ℕ) → 0 < length (two_digits n)
unfolding two_digits
two_digits-ne-nil n = ground (arith, itoa-ne-nil n)

-- A number before a text that begins with no digit
number_injective :
    (n m c d : ℕ) (s t : Bytes)
    → c < 48
    → d < 48
    → two_digits n ++ c ∷ s ≡ two_digits m ++ d ∷ t
    → n ≡ m
number_injective n m c d s t low low' e =
    sym (value-two_digits n)
    ∙ ap (digits_value 0) (
        sym (digits_of-append (two_digits n) c s (two_digits-IsDigit n) low)
        ∙ ap digits_of e
        ∙ digits_of-append (two_digits m) d t (two_digits-IsDigit m) low')
    ∙ value-two_digits m

number_ne_letter : (n c d : ℕ) (s t : Bytes) → c < 48 → 58 ≤ d → two_digits n ++ c ∷ s ≢ d ∷ t
number_ne_letter n c d s t low high e =
    let none_there : digits_of (d ∷ t) ≡ [] = unfold digits_of in ground arith in
    let all_there = digits_of-append (two_digits n) c s (two_digits-IsDigit n) low in
    omega (arith, two_digits-ne-nil n, ap length (sym all_there ∙ ap digits_of e ∙ none_there))

pub filename_of_injective :
    (s t : Bytes) (i j : ℕ) → filename_of false s i ≡ filename_of false t j → i ≡ j
unfolding filename_of
filename_of_injective [] [] i j e =
    omega (
      arith,
      number_injective (suc i) (suc j) 46 46 _ _ (omega arith) (omega arith) (ap (drop 6) e),
    )
filename_of_injective [] (c ∷ t) i j e =
    absurd (number_ne_letter (suc j) 32 84 _ _ (omega arith) (omega arith) (sym e))
filename_of_injective (c ∷ s) [] i j e =
    absurd (number_ne_letter (suc i) 32 84 _ _ (omega arith) (omega arith) e)
filename_of_injective (c ∷ s) (d ∷ t) i j e =
    omega (arith, number_injective (suc i) (suc j) 32 32 _ _ (omega arith) (omega arith) e)

-- No two entries have one file name.
abbrev pub IsUnlike : TrackEntry → List TrackEntry → Type 0
IsUnlike t [] = Unit
IsUnlike t (u ∷ us) = (t.filename ≢ u.filename) × IsUnlike t us

abbrev pub AllDistinct : List TrackEntry → Type 0
AllDistinct [] = Unit
AllDistinct (t ∷ ts) = IsUnlike t ts × AllDistinct ts

module _ (cf : ChipFile) (dp df : ℕ) (numbered : cf.single_track ≡ false) where
  build_entry_name :
      (i j : ℕ) (t u : ChipTrack)
      → (build_entry cf dp df i t).filename ≡ (build_entry cf dp df j u).filename
      → i ≡ j
  unfolding build_entry
  build_entry_name i j t u e = filename_of_injective _ _ i j (rw numbered at e)

  entries_step :
      (i : ℕ) (t : ChipTrack) (ts : List ChipTrack)
      → build_entries cf dp df i (t ∷ ts)
        ≡ build_entry cf dp df i t ∷ build_entries cf dp df (suc i) ts
  unfolding build_entries
  entries_step i t ts = refl

  build_entries-IsUnlike :
      (i j : ℕ) (t : ChipTrack) (us : List ChipTrack)
      → i < j
      → IsUnlike (build_entry cf dp df i t) (build_entries cf dp df j us)
  build_entries-IsUnlike i j t [] h = unfold build_entries in tt
  build_entries-IsUnlike i j t (u ∷ us) h = rw (entries_step j u us) (
    λ e. omega (arith, build_entry_name i j t u e),
    build_entries-IsUnlike i (suc j) t us (omega arith),
  )

  build_entries-AllDistinct :
      (i : ℕ) (ts : List ChipTrack) → AllDistinct (build_entries cf dp df i ts)
  build_entries-AllDistinct i [] = unfold build_entries in tt
  build_entries-AllDistinct i (t ∷ ts) =
      rw (entries_step i t ts)
        (build_entries-IsUnlike i (suc i) t ts (omega arith), build_entries-AllDistinct (suc i) ts)

  -- The numbered tracks of one file all have different file names, whatever their titles are.
  pub track_list-AllDistinct : AllDistinct (track_list cf dp df)
  unfolding track_list
  track_list-AllDistinct = build_entries-AllDistinct 0 cf.tracks
