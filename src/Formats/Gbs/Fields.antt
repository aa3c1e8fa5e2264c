-- ===== src/Formats/Gbs/Fields.antt =====
-- `Parse` of internal/formats/gbs/gbs.go: it never faults, and it finds what a GBS file holds.
use chipfs.Base.{
  ℕ, zero, suc, ◌≤◌, ◌≡◌, ◌≢◌, refl, ◌∙◌, inl, inr, List, [], ◌∷◌, ◌++◌, false, ltb, Bool-cases,
  length, replicate, All, All-append, Bytes, text, ok, err, arith,
}
use chipfs.Formats.{byte_at, slice}
use chipfs.Formats.Parts.{joined, length-joined, slice_part}
use chipfs.Formats.Slices.{
  IsNotNull, equal_refl, null_padded_string-append, byte_at-total, slice-total,
}
use chipfs.Formats.Gbs.{out_of_range, Header, trim_right, padded_string, fields, parse}

-- A text of a header: some bytes, then spaces, then nulls.
abbrev pub padded : Bytes → ℕ → ℕ → Bytes
padded s spaces nulls = (s ++ replicate spaces 32) ++ replicate nulls 0

spaces_go : (n : ℕ) → trim_right (replicate n 32) ≡ []
unfolding trim_right
spaces_go zero = refl
spaces_go (suc n) = rw (spaces_go n) refl

trim_right-append : (s : Bytes) (n : ℕ) → trim_right (s ++ replicate n 32) ≡ trim_right s
unfolding trim_right
trim_right-append [] n = spaces_go n
trim_right-append (b ∷ s) n = rw (trim_right-append s n) refl

spaces-All : (n : ℕ) → All IsNotNull (replicate n 32)
spaces-All zero = tt
spaces-All (suc n) = (λ h. omega (arith, h), spaces-All n)

-- Both kinds of padding are taken off a text that holds no null and does not end in a space.
pub padded_string-padded :
    (s : Bytes) (spaces nulls : ℕ)
    → All IsNotNull s
    → trim_right s ≡ s
    → padded_string (padded s spaces nulls) ≡ s
unfolding padded_string
padded_string-padded s spaces nulls h trimmed =
    rw
      (null_padded_string-append (s ++ replicate spaces 32) nulls
        (All-append IsNotNull s _ h (spaces-All spaces)))
      (trim_right-append s spaces ∙ trimmed)

-- The 32 bytes of a field that was written for the text `s`.
pub record IsField (field s : Bytes) : Type 0 where
  pub spaces : ℕ
  pub nulls : ℕ
  pub layout : field ≡ padded s spaces nulls
  pub size : length field ≡ 32
  pub clean : All IsNotNull s
  pub trimmed : trim_right s ≡ s

padded_string-IsField : {field s : Bytes} → IsField field s → padded_string field ≡ s
padded_string-IsField {field} {s} h =
    rw h.layout (padded_string-padded s h.spaces h.nulls h.clean h.trimmed)

fields_lem :
    (bytes : Bytes) {count first : ℕ} {title author copyright : Bytes}
    → byte_at out_of_range bytes 4 ≡ ok count
    → byte_at out_of_range bytes 5 ≡ ok first
    → slice out_of_range bytes 16 48 ≡ ok title
    → slice out_of_range bytes 48 80 ≡ ok author
    → slice out_of_range bytes 80 112 ≡ ok copyright
    → fields bytes
      ≡ ok (record {
        title = padded_string title;
        author = padded_string author;
        copyright = padded_string copyright;
        track_count = count;
        first_track = first;
      })
unfolding fields
fields_lem bytes h1 h2 h3 h4 h5 = rw (h1, h2, h3, h4, h5) refl

fields-total : (bytes : Bytes) → 112 ≤ length bytes → (h : Header) × (fields bytes ≡ ok h)
fields-total bytes h =
    let (count, at_4) = byte_at-total out_of_range bytes 4 (omega arith) in
    let (first, at_5) = byte_at-total out_of_range bytes 5 (omega arith) in
    (
      _,
      fields_lem bytes at_4 at_5 (slice-total out_of_range bytes 16 48 (omega arith) (omega arith))
          (slice-total out_of_range bytes 48 80 (omega arith) (omega arith))
          (slice-total out_of_range bytes 80 112 (omega arith) (omega arith)),
    )

parse_full :
    (bytes : Bytes)
    → slice out_of_range bytes 0 3 ≡ ok (text "GBS")
    → 112 ≤ length bytes
    → parse bytes ≡ fields bytes
unfolding parse
parse_full bytes front h =
    let long : ltb (length bytes) 3 ≡ false = ground arith in
    let full : ltb (length bytes) 112 ≡ false = ground arith in
    rw (long, front, full, equal_refl (text "GBS")) refl

-- `Parse` panics on no input.
pub parse-out_of_range : (bytes : Bytes) → parse bytes ≢ err out_of_range
unfolding parse
parse-out_of_range bytes = elim (Bool-cases (ltb (length bytes) 3)) [
  | inl short ↦ rw short (λ e. cc)
  | inr long ↦ elim (Bool-cases (ltb (length bytes) 112)) [
    | inl cut ↦
        rw (long, slice-total out_of_range bytes 0 3 (omega arith) (ground arith), cut)
          (ground arith)
    | inr full ↦
        let (h, found) = fields-total bytes (ground arith) in
        rw (long, slice-total out_of_range bytes 0 3 (omega arith) (ground arith), full, found)
          (ground arith)
  ]
]

-- A GBS file: the magic, a version, the counts, ten bytes of addresses, three texts, the code.
abbrev pub gbs_file : ℕ → ℕ → ℕ → Bytes → Bytes → Bytes → Bytes → Bytes → Bytes
gbs_file version track_count first_track addresses title author copyright code = joined (
    text "GBS"
    ∷ (version ∷ [])
    ∷ (track_count ∷ [])
    ∷ (first_track ∷ [])
    ∷ addresses
    ∷ title
    ∷ author
    ∷ copyright
    ∷ code
    ∷ [])

module _ (version track_count first_track : ℕ) (addresses title author copyright code : Bytes) where
  abbrev file : Bytes
  file = gbs_file version track_count first_track addresses title author copyright code

  abbrev front : List Bytes
  front = text "GBS" ∷ (version ∷ []) ∷ (track_count ∷ []) ∷ (first_track ∷ []) ∷ addresses ∷ []

  -- `Parse` recovers what a GBS file was written from: the counts, and three texts of up to 32
  -- bytes, whether they are padded with spaces, with nulls or with both.
  pub parse-gbs_file :
      {t a c : Bytes}
      → length addresses ≡ 10
      → IsField title t
      → IsField author a
      → IsField copyright c
      → parse file
        ≡ ok (record {
          title = t;
          author = a;
          copyright = c;
          track_count = track_count;
          first_track = first_track;
        })
  parse-gbs_file h0 h1 h2 h3 =
      let at_4 : byte_at out_of_range file 4 ≡ ok track_count = unfold byte_at in refl in
      let at_5 : byte_at out_of_range file 5 ≡ ok first_track = unfold byte_at in refl in
      let found =
        fields_lem file at_4 at_5
          (slice_part out_of_range front title (author ∷ copyright ∷ code ∷ []) 16 48
            (omega (arith, h0)) (omega (arith, h1.size)))
          (slice_part out_of_range (front ++ title ∷ []) author (copyright ∷ code ∷ []) 48 80
            (omega (arith, h0, h1.size)) (omega (arith, h2.size)))
          (slice_part out_of_range (front ++ title ∷ author ∷ []) copyright (code ∷ []) 80 112
            (omega (arith, h0, h1.size, h2.size)) (omega (arith, h3.size))) in
      parse_full file
        (slice_part out_of_range [] (text "GBS")
          ((version ∷ [])
            ∷ (track_count ∷ [])
            ∷ (first_track ∷ [])
            ∷ addresses
            ∷ title
            ∷ author
            ∷ copyright
            ∷ code
            ∷ [])
          0 3 refl refl)
        (omega (
          arith,
          h0,
          h1.size,
          h2.size,
          h3.size,
          length-joined (front ++ title ∷ author ∷ copyright ∷ code ∷ []),
        ))
      ∙ rw (found, padded_string-IsField h1, padded_string-IsField h2, padded_string-IsField h3)
          refl
