-- ===== src/Formats/Tests.antt =====
-- Runs of the parsers of internal/formats on small files, and the theorems there.
use chipfs.Base.{
  trim_space, digits_value, Bytes, ◌≡◌, refl, List, [], ◌∷◌, ◌++◌, replicate, text, pos, ok, err,
  ◌>>=◌, arith, le32,
}
use chipfs.Formats.{equal, index_byte, null_padded_string, byte_at, slice}
use chipfs.Formats.Gbs
use chipfs.Formats.Gbs.Fields.{padded, IsField, gbs_file, parse-gbs_file}
use chipfs.Formats.Nsf
use chipfs.Formats.Spc
use chipfs.Formats.Spc.Safe.{IsFaultFree, parse-IsFaultFree}
use chipfs.Formats.Nsf.Safe.{IsSafe, parse-IsSafe}
use chipfs.Formats.Nsf.{
  split_null_terminated, ensure_tracks, set_track, update_track, apply_titles, apply_track_int32s,
  int32, start, apply_info, apply_auth, apply_other, apply_chunk, uint32_at, chunks, remap, finish,
  parse_nsfe,
}
use chipfs.Formats.Nsf.Chunks.{Chunk, nsfe_file, apply_all, parse-nsfe_file}

program : Unit {0}
unfolding equal index_byte null_padded_string byte_at slice Gbs.trim_right Gbs.padded_string
    Gbs.fields Gbs.parse split_null_terminated ensure_tracks set_track update_track apply_titles
    apply_track_int32s int32 apply_info apply_auth apply_other apply_chunk uint32_at chunks remap
    finish parse_nsfe Nsf.parse apply_all
program = tt

-- A title that fills its field with spaces, an author that is padded with nulls.
title-IsField : IsField (padded (text "Pokemon") 25 0) (text "Pokemon")
unfolding program
title-IsField = record {
  spaces = 25;
  nulls = 0;
  layout = refl;
  size = refl;
  clean = (
    λ p. omega (arith, p),
    (
      λ p. omega (arith, p),
      (
        λ p. omega (arith, p),
        (
          λ p. omega (arith, p),
          (λ p. omega (arith, p), (λ p. omega (arith, p), (λ p. omega (arith, p), tt))),
        ),
      ),
    ),
  );
  trimmed = refl;
}

author-IsField : IsField (padded (text "JM") 0 30) (text "JM")
unfolding program
author-IsField = record {
  spaces = 0;
  nulls = 30;
  layout = refl;
  size = refl;
  clean = (λ p. omega (arith, p), (λ p. omega (arith, p), tt));
  trimmed = refl;
}

parse-gbs_file_example :
    Gbs.parse (
      gbs_file 1 45 1
        (replicate 10 0)
        (padded (text "Pokemon") 25 0)
        (padded (text "JM") 0 30)
        (padded (text "JM") 0 30)
        (201 ∷ []))
    ≡ ok (record {
      title = text "Pokemon";
      author = text "JM";
      copyright = text "JM";
      track_count = 45;
      first_track = 1;
    })
parse-gbs_file_example =
    parse-gbs_file 1 45 1 (replicate 10 0) (padded (text "Pokemon") 25 0) (padded (text "JM") 0 30)
      (padded (text "JM") 0 30) (201 ∷ []) refl title-IsField author-IsField author-IsField

gbs_too_short : Gbs.parse (71 ∷ []) ≡ err Gbs.too_short
unfolding program
gbs_too_short = refl

-- Three tracks, two titles, one duration, and a playlist of two.
abbrev game : List Chunk
game =
    (text "INFO", 0 ∷ 128 ∷ 0 ∷ 128 ∷ 0 ∷ 128 ∷ 0 ∷ 0 ∷ 3 ∷ 0 ∷ [])
    ∷ (text "auth", text "Game" ++ (0 ∷ text "Somebody" ++ (0 ∷ [])))
    ∷ (text "tlbl", text "Intro" ++ (0 ∷ text "Stage" ++ (0 ∷ [])))
    ∷ (text "time", le32 90000)
    ∷ (text "plst", 1 ∷ 0 ∷ [])
    ∷ []

playlist :
    Nsf.parse (nsfe_file game 0 (1 ∷ 2 ∷ []))
    ≡ ok (record {
      title = text "Game";
      artist = text "Somebody";
      copyright = [];
      track_count = 2;
      first_track = 1;
      tracks =
          record { title = text "Stage"; duration_ms = pos 0; fade_ms = pos 0 }
          ∷ record { title = text "Intro"; duration_ms = pos 90000; fade_ms = pos 0 }
          ∷ [];
    })
unfolding program
playlist = refl

mandatory :
    Nsf.parse (nsfe_file ((text "ZZZZ", []) ∷ []) 0 []) ≡ err (Nsf.unrecognized_chunk (text "ZZZZ"))
unfolding program
mandatory = refl

parse-nsfe_file_example :
    Nsf.parse (nsfe_file game 0 (1 ∷ 2 ∷ [])) ≡ (apply_all start game >>= finish)
unfolding equal
parse-nsfe_file_example = parse-nsfe_file 0 (1 ∷ 2 ∷ []) (omega arith) game (
  (refl, refl, omega arith),
  (
    (refl, refl, omega arith),
    ((refl, refl, omega arith), ((refl, refl, omega arith), ((refl, refl, omega arith), tt))),
  ),
)

parse-IsSafe_example : IsSafe (Nsf.parse (nsfe_file game 0 []))
parse-IsSafe_example = parse-IsSafe (nsfe_file game 0 [])

-- An SPC file whose tag is in the text form: five seconds, a fade of 250 ms.
abbrev spc_file : Bytes
spc_file =
    Spc.spc_magic
    ++ (text "30"
        ++ (26 ∷ 26 ∷ 26 ∷ 30 ∷ replicate 9 0)
        ++ (text "Opening"
            ++ (replicate 25 0
                ++ (text "Game"
                    ++ (replicate 28 0
                        ++ (replicate 48 0
                            ++ (text "01/02/1995"
                                ++ (0 ∷ text "5"
                                    ++ (0 ∷ 0 ∷ text " 250 "
                                        ++ (text "Author" ++ replicate 30 0))))))))))

spc_read :
    Spc.parse spc_file
    ≡ ok (record {
      song_title = text "Opening";
      game_title = text "Game";
      artist = text "Author";
      dumper = [];
      comments = [];
      play_duration_ms = pos 5000;
      fade_duration_ms = pos 250;
    })
unfolding program Spc.parse Spc.has_prefix Spc.shared_fields Spc.is_binary_format Spc.text_fields
    Spc.binary_fields Spc.parse_ascii_int Spc.atoi Spc.digits trim_space digits_value
spc_read = refl

parse-IsFaultFree_example : IsFaultFree (Spc.parse spc_file)
parse-IsFaultFree_example = parse-IsFaultFree spc_file
