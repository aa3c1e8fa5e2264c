-- ===== src/Formats/Spc/Tests.antt =====
-- An SPC file in each form of the tag, and the theorems there.
use chipfs.Base.{ℕ, ◌≡◌, refl, inr, [], ◌∷◌, ◌++◌, replicate, text, pos, ok, arith, itoa, itoa_loop}
use chipfs.Formats.Parts.{IsNullPadded}
use chipfs.Formats.Samples.{null_padded}
use chipfs.Formats.Spc.{parse}
use chipfs.Formats.Spc.Layout.{Front, Texts, IsFront, spc_file, with_texts}
use chipfs.Formats.Spc.TextTag.{parse-text_tag}
use chipfs.Formats.Spc.BinaryTag.{behind_blank, binary_durations, parse-binary_tag}

-- A song of the game, dumped in 1995
abbrev pub texts : Texts
texts = record {
  song_title = text "Opening";
  game_title = text "Game";
  dumper = text "Someone";
  comments = [];
}

abbrev pub front : ℕ → Front
front separator = record {
  version = text "30";
  tag = 26;
  registers = replicate 10 0;
  song_title = text "Opening" ++ replicate 25 0;
  game_title = text "Game" ++ replicate 28 0;
  dumper = text "Someone" ++ replicate 9 0;
  comments = replicate 32 0;
  month = text "01";
  separator = separator;
  day_year = replicate 8 0;
}

pub front-IsFront : (separator : ℕ) → IsFront (front separator) texts
front-IsFront separator = record {
  version = refl;
  tag = λ e. omega (arith, e);
  registers = refl;
  song_title = null_padded (text "Opening") 25 32 refl refl;
  game_title = null_padded (text "Game") 28 32 refl refl;
  dumper = null_padded (text "Someone") 9 16 refl refl;
  comments = null_padded [] 32 32 refl refl;
  month = refl;
  day_year = refl;
}

pub author-IsNullPadded : IsNullPadded (text "Author" ++ replicate 26 0) (text "Author") 32
author-IsNullPadded = null_padded (text "Author") 26 32 refl refl

pub seconds-IsNullPadded : IsNullPadded (text "95" ++ 0 ∷ []) (itoa 95) 3
unfolding itoa itoa_loop
seconds-IsNullPadded = null_padded (text "95") 1 3 refl refl

pub fade-IsNullPadded : IsNullPadded (text "7000" ++ 0 ∷ []) (itoa 7000) 5
unfolding itoa itoa_loop
fade-IsNullPadded = null_padded (text "7000") 1 5 refl refl

parse-text_tag_example :
    parse (
      spc_file (front 0) (
        (text "95" ++ 0 ∷ [])
        ∷ (text "7000" ++ 0 ∷ [])
        ∷ (text "Author" ++ replicate 26 0)
        ∷ replicate 9 0
        ∷ []))
    ≡ ok (record (with_texts texts) {
      play_duration_ms = pos 95000;
      fade_duration_ms = pos 7000;
      artist = text "Author";
    })
parse-text_tag_example =
    parse-text_tag (front-IsFront 0) 95 7000 (replicate 9 0) seconds-IsNullPadded fade-IsNullPadded
      author-IsNullPadded (omega arith)

parse-binary_tag_example :
    parse (
      spc_file (front 0) (
        binary_durations 130 100000
        ++ (0 ∷ []) ∷ (text "Author" ++ replicate 26 0) ∷ replicate 9 0 ∷ []))
    ≡ ok (record (with_texts texts) {
      play_duration_ms = pos 130000;
      fade_duration_ms = pos 0;
      artist = text "Author";
    })
parse-binary_tag_example =
    parse-binary_tag (front-IsFront 0) 130 100000 (omega arith) (omega arith) (omega arith)
      (inr (omega arith))
      (behind_blank 0 (text "Author" ++ replicate 26 0) (replicate 9 0) author-IsNullPadded
        (omega arith) (omega arith))
