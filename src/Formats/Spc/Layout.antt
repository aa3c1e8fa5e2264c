-- ===== src/Formats/Spc/Layout.antt =====
-- How an SPC file with an ID666 tag is laid out, apart from how internal/formats/spc/spc.go finds
-- it: the parts in front of the durations, and what `Parse` makes of them.
use chipfs.Base.{
  ℕ, ◌≤◌, ◌≡◌, ◌≢◌, refl, List, [], ◌∷◌, ◌++◌, true, false, ltb, ◌==◌, length, Bytes, ok,
  if◌then◌else◌, ◌>>=◌, arith,
}
use chipfs.Formats.{byte_at, slice}
use chipfs.Formats.Parts.{
  joined, size, length-joined, slice_part, byte_part, IsNullPadded, null_padded_string-IsNullPadded,
}
use chipfs.Formats.Slices.{equal_refl}
use chipfs.Formats.Spc.{
  out_of_range, Header, no_tag, spc_magic, has_prefix, is_binary_format, binary_fields, text_fields,
  shared_fields, parse,
}

-- The fields in front of the durations, `separator` the third byte of the date.
pub record Front : Type 0 where
  pub version : Bytes
  pub tag : ℕ
  pub registers : Bytes
  pub song_title : Bytes
  pub game_title : Bytes
  pub dumper : Bytes
  pub comments : Bytes
  pub month : Bytes
  pub separator : ℕ
  pub day_year : Bytes

-- The four texts that are in these fields
pub record Texts : Type 0 where
  pub song_title : Bytes
  pub game_title : Bytes
  pub dumper : Bytes
  pub comments : Bytes

-- The fields have their sizes, hold the texts, and there is a tag.
pub record IsFront (p : Front) (t : Texts) : Type 0 where
  pub version : length p.version ≡ 2
  pub tag : p.tag ≢ 27
  pub registers : length p.registers ≡ 10
  pub song_title : IsNullPadded p.song_title t.song_title 32
  pub game_title : IsNullPadded p.game_title t.game_title 32
  pub dumper : IsNullPadded p.dumper t.dumper 16
  pub comments : IsNullPadded p.comments t.comments 32
  pub month : length p.month ≡ 2
  pub day_year : length p.day_year ≡ 8

abbrev pub with_texts : Texts → Header
with_texts t = record no_tag {
  song_title = t.song_title;
  game_title = t.game_title;
  dumper = t.dumper;
  comments = t.comments;
}

-- The part of a file up to the durations, and the file
abbrev pub front_parts : Front → List Bytes
front_parts p =
    spc_magic
    ∷ p.version
    ∷ (26 ∷ 26 ∷ [])
    ∷ (p.tag ∷ p.registers)
    ∷ p.song_title
    ∷ p.game_title
    ∷ p.dumper
    ∷ p.comments
    ∷ p.month
    ∷ (p.separator ∷ p.day_year)
    ∷ []

abbrev pub spc_file : Front → List Bytes → Bytes
spc_file p rest = joined (front_parts p ++ rest)

parse_lem :
    (bytes : Bytes) {tag : ℕ} {h : Header}
    → 210 ≤ length bytes
    → has_prefix bytes spc_magic ≡ true
    → byte_at out_of_range bytes 35 ≡ ok tag
    → tag ≢ 27
    → shared_fields bytes ≡ ok h
    → parse bytes ≡ (
        is_binary_format bytes >>= λ binary.
        if binary then binary_fields h bytes else text_fields h bytes)
unfolding parse
parse_lem bytes {tag} long prefix tag_at tagged shared =
    let not_short : ltb (length bytes) 33 ≡ false = ground arith in
    let not_cut : ltb (length bytes) 210 ≡ false = ground arith in
    let has_tag : tag == 27 ≡ false = ground arith in
    rw (not_short, prefix, not_cut, tag_at, has_tag, shared) refl

module _ {p : Front} {t : Texts} (h : IsFront p t) (rest : List Bytes) where
  pub size-front_parts : size (front_parts p) ≡ 169
  size-front_parts = omega (
    arith, h.version, h.registers, h.song_title.size, h.game_title.size, h.dumper.size,
    h.comments.size, h.month, h.day_year,
  )

  pub separator_at : byte_at out_of_range (spc_file p rest) 160 ≡ ok p.separator
  separator_at =
      byte_part out_of_range
        (spc_magic
          ∷ p.version
          ∷ (26 ∷ 26 ∷ [])
          ∷ (p.tag ∷ p.registers)
          ∷ p.song_title
          ∷ p.game_title
          ∷ p.dumper
          ∷ p.comments
          ∷ p.month
          ∷ [])
        p.separator p.day_year rest 160
        (omega (
          arith, h.version, h.registers, h.song_title.size, h.game_title.size, h.dumper.size,
          h.comments.size, h.month,
        ))

  tag_at : byte_at out_of_range (spc_file p rest) 35 ≡ ok p.tag
  tag_at =
      byte_part out_of_range (spc_magic ∷ p.version ∷ (26 ∷ 26 ∷ []) ∷ []) p.tag p.registers
        (p.song_title
          ∷ p.game_title
          ∷ p.dumper
          ∷ p.comments
          ∷ p.month
          ∷ (p.separator ∷ p.day_year)
          ∷ rest)
        35 (omega (arith, h.version))

  song_title_at : slice out_of_range (spc_file p rest) 46 78 ≡ ok p.song_title
  song_title_at =
      slice_part out_of_range (spc_magic ∷ p.version ∷ (26 ∷ 26 ∷ []) ∷ (p.tag ∷ p.registers) ∷ [])
        p.song_title
        (p.game_title ∷ p.dumper ∷ p.comments ∷ p.month ∷ (p.separator ∷ p.day_year) ∷ rest) 46 78
        (omega (arith, h.version, h.registers)) (omega (arith, h.song_title.size))

  game_title_at : slice out_of_range (spc_file p rest) 78 110 ≡ ok p.game_title
  game_title_at =
      slice_part out_of_range
        (spc_magic ∷ p.version ∷ (26 ∷ 26 ∷ []) ∷ (p.tag ∷ p.registers) ∷ p.song_title ∷ [])
        p.game_title (p.dumper ∷ p.comments ∷ p.month ∷ (p.separator ∷ p.day_year) ∷ rest) 78 110
        (omega (arith, h.version, h.registers, h.song_title.size))
        (omega (arith, h.game_title.size))

  dumper_at : slice out_of_range (spc_file p rest) 110 126 ≡ ok p.dumper
  dumper_at =
      slice_part out_of_range
        (spc_magic
          ∷ p.version
          ∷ (26 ∷ 26 ∷ [])
          ∷ (p.tag ∷ p.registers)
          ∷ p.song_title
          ∷ p.game_title
          ∷ [])
        p.dumper (p.comments ∷ p.month ∷ (p.separator ∷ p.day_year) ∷ rest) 110 126
        (omega (arith, h.version, h.registers, h.song_title.size, h.game_title.size))
        (omega (arith, h.dumper.size))

  comments_at : slice out_of_range (spc_file p rest) 126 158 ≡ ok p.comments
  comments_at =
      slice_part out_of_range
        (spc_magic
          ∷ p.version
          ∷ (26 ∷ 26 ∷ [])
          ∷ (p.tag ∷ p.registers)
          ∷ p.song_title
          ∷ p.game_title
          ∷ p.dumper
          ∷ [])
        p.comments (p.month ∷ (p.separator ∷ p.day_year) ∷ rest) 126 158
        (omega (arith, h.version, h.registers, h.song_title.size, h.game_title.size, h.dumper.size))
        (omega (arith, h.comments.size))

  shared_fields-spc_file : shared_fields (spc_file p rest) ≡ ok (with_texts t)
  unfolding shared_fields
  shared_fields-spc_file =
      rw
        (
          song_title_at,
          game_title_at,
          dumper_at,
          comments_at,
          null_padded_string-IsNullPadded h.song_title,
          null_padded_string-IsNullPadded h.game_title,
          null_padded_string-IsNullPadded h.dumper,
          null_padded_string-IsNullPadded h.comments,
        )
        refl

  -- A file that is long enough is read in one of the two forms.
  pub parse_full :
      41 ≤ size rest
      → parse (spc_file p rest) ≡ (
          is_binary_format (spc_file p rest) >>= λ binary.
          if binary
          then binary_fields (with_texts t) (spc_file p rest)
          else text_fields (with_texts t) (spc_file p rest))
  parse_full long =
      let total = length-joined (front_parts p ++ rest) in
      parse_lem (spc_file p rest) (omega (arith, total, size-front_parts))
        (unfold has_prefix in equal_refl spc_magic) tag_at h.tag shared_fields-spc_file
