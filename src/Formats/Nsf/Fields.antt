-- ===== src/Formats/Nsf/Fields.antt =====
-- `Parse` of internal/formats/nsf/nsf.go on a plain NSF file: it finds what the header was written
-- from.
use chipfs.Base.{
  ℕ, ◌≤◌, ◌≡◌, refl, ◌∙◌, List, [], ◌∷◌, ◌++◌, false, ltb, length, Bytes, text, ok, arith,
}
use chipfs.Formats.{equal, byte_at, slice, null_padded_string}
use chipfs.Formats.Slices.{equal_refl}
use chipfs.Formats.Parts.{
  joined, length-joined, slice_part, IsNullPadded, null_padded_string-IsNullPadded,
}
use chipfs.Formats.Nsf.{out_of_range, magic, fields, parse}

-- An NSF file: the magic, a version, the counts, six bytes of addresses, three texts, and what
-- follows.
abbrev pub nsf_parts : ℕ → ℕ → ℕ → Bytes → Bytes → Bytes → Bytes → Bytes → List Bytes
nsf_parts version track_count first_track addresses title artist copyright rest =
    magic
    ∷ (version ∷ [])
    ∷ (track_count ∷ [])
    ∷ (first_track ∷ [])
    ∷ addresses
    ∷ title
    ∷ artist
    ∷ copyright
    ∷ rest
    ∷ []

fields_lem :
    (bytes : Bytes) {count first : ℕ} {title artist copyright : Bytes}
    → byte_at out_of_range bytes 6 ≡ ok count
    → byte_at out_of_range bytes 7 ≡ ok first
    → slice out_of_range bytes 14 46 ≡ ok title
    → slice out_of_range bytes 46 78 ≡ ok artist
    → slice out_of_range bytes 78 110 ≡ ok copyright
    → fields bytes
      ≡ ok (record {
        title = null_padded_string title;
        artist = null_padded_string artist;
        copyright = null_padded_string copyright;
        track_count = count;
        first_track = first;
        tracks = [];
      })
unfolding fields
fields_lem bytes h1 h2 h3 h4 h5 = rw (h1, h2, h3, h4, h5) refl

parse_full :
    (bytes : Bytes) {front : Bytes}
    → slice out_of_range bytes 0 4 ≡ ok front
    → equal front (text "NSFE") ≡ false
    → slice out_of_range bytes 0 5 ≡ ok magic
    → 128 ≤ length bytes
    → parse bytes ≡ fields bytes
unfolding parse
parse_full bytes h1 h2 h3 long =
    let not_empty : ltb (length bytes) 4 ≡ false = ground arith in
    let not_short : ltb (length bytes) 5 ≡ false = ground arith in
    let not_cut : ltb (length bytes) 128 ≡ false = ground arith in
    rw (not_empty, h1, h2, not_short, h3, equal_refl magic, not_cut) refl

module _ (version track_count first_track : ℕ) (addresses title artist copyright rest : Bytes) where
  abbrev parts : List Bytes
  parts = nsf_parts version track_count first_track addresses title artist copyright rest

  -- `Parse` recovers the counts and the three texts of an NSF file, each of up to 32 bytes and
  -- padded with nulls, and gives no track of its own.
  pub parse-nsf_parts :
      {t a c : Bytes}
      → length addresses ≡ 6
      → IsNullPadded title t 32
      → IsNullPadded artist a 32
      → IsNullPadded copyright c 32
      → 18 ≤ length rest
      → parse (joined parts)
        ≡ ok (record {
          title = t;
          artist = a;
          copyright = c;
          track_count = track_count;
          first_track = first_track;
          tracks = [];
        })
  parse-nsf_parts h0 h1 h2 h3 long =
      let counts : List Bytes =
        magic ∷ (version ∷ []) ∷ (track_count ∷ []) ∷ (first_track ∷ []) ∷ addresses ∷ [] in
      let full =
        parse_full (joined parts)
          (slice_part out_of_range [] (78 ∷ 69 ∷ 83 ∷ 77 ∷ [])
            ((26 ∷ [])
              ∷ (version ∷ [])
              ∷ (track_count ∷ [])
              ∷ (first_track ∷ [])
              ∷ addresses
              ∷ title
              ∷ artist
              ∷ copyright
              ∷ rest
              ∷ [])
            0 4 refl refl)
          (unfold equal in refl)
          (slice_part out_of_range [] magic
            ((version ∷ [])
              ∷ (track_count ∷ [])
              ∷ (first_track ∷ [])
              ∷ addresses
              ∷ title
              ∷ artist
              ∷ copyright
              ∷ rest
              ∷ [])
            0 5 refl refl)
          (omega (arith, length-joined parts, h0, h1.size, h2.size, h3.size)) in
      let at_6 : byte_at out_of_range (joined parts) 6 ≡ ok track_count = unfold byte_at in refl in
      let at_7 : byte_at out_of_range (joined parts) 7 ≡ ok first_track = unfold byte_at in refl in
      let found =
        fields_lem (joined parts) at_6 at_7
          (slice_part out_of_range counts title (artist ∷ copyright ∷ rest ∷ []) 14 46
            (omega (arith, h0)) (omega (arith, h1.size)))
          (slice_part out_of_range (counts ++ title ∷ []) artist (copyright ∷ rest ∷ []) 46 78
            (omega (arith, h0, h1.size)) (omega (arith, h2.size)))
          (slice_part out_of_range (counts ++ title ∷ artist ∷ []) copyright (rest ∷ []) 78 110
            (omega (arith, h0, h1.size, h2.size)) (omega (arith, h3.size))) in
      full
      ∙ rw
          (
            found,
            null_padded_string-IsNullPadded h1,
            null_padded_string-IsNullPadded h2,
            null_padded_string-IsNullPadded h3,
          )
          refl
