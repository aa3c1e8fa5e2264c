-- ===== src/Formats/Nsf/Tests.antt =====
-- A plain NSF file and an NSFe file that was written from an album, and the theorems there.
use chipfs.Base.{◌≡◌, refl, [], ◌∷◌, ◌++◌, replicate, All, text, pos, negsuc, ok, arith}
use chipfs.Formats.{equal}
use chipfs.Formats.Parts.{joined}
use chipfs.Formats.Samples.{clean, null_padded}
use chipfs.Formats.Nsf.{parse, int32}
use chipfs.Formats.Nsf.Chunks.{IsChunk, nsfe_file}
use chipfs.Formats.Nsf.Fields.{nsf_parts, parse-nsf_parts}
use chipfs.Formats.Nsf.Written.{Album, IsSong, written, parse-written}

parse-nsf_parts_example :
    parse (
      joined (
        nsf_parts 1 20 1
          (replicate 6 0)
          (text "Mega" ++ replicate 28 0)
          (text "MM" ++ replicate 30 0)
          (text "1987" ++ replicate 28 0)
          (replicate 18 0)))
    ≡ ok (record {
      title = text "Mega";
      artist = text "MM";
      copyright = text "1987";
      track_count = 20;
      first_track = 1;
      tracks = [];
    })
parse-nsf_parts_example =
    parse-nsf_parts 1 20 1 (replicate 6 0) (text "Mega" ++ replicate 28 0)
      (text "MM" ++ replicate 30 0) (text "1987" ++ replicate 28 0) (replicate 18 0) refl
      (null_padded (text "Mega") 28 32 refl refl) (null_padded (text "MM") 30 32 refl refl)
      (null_padded (text "1987") 28 32 refl refl) (omega arith)

-- Two songs, the fade of the second unknown, that are played in the other order.
abbrev pub album : Album
album = record {
  title = text "Game";
  artist = text "Somebody";
  copyright = text "1990";
  first = 0;
  songs =
      record { title = text "Intro"; duration_bits = 90000; fade_bits = 5000 }
      ∷ record { title = text "Stage"; duration_bits = 60000; fade_bits = 4294967295 }
      ∷ [];
  playlist = 1 ∷ 0 ∷ [];
}

pub songs-IsSong : All IsSong album.songs
songs-IsSong = (
  (clean (text "Intro") refl, omega arith, omega arith),
  ((clean (text "Stage") refl, omega arith, omega arith), tt),
)

pub chunks-IsChunk : All IsChunk (written (replicate 8 0) [] album)
unfolding equal
chunks-IsChunk = (
  (refl, refl, omega arith),
  (
    (refl, refl, omega arith),
    (
      (refl, refl, omega arith),
      (
        (refl, refl, omega arith),
        ((refl, refl, omega arith), ((refl, refl, omega arith), ((refl, refl, omega arith), tt))),
      ),
    ),
  ),
)

parse-written_example :
    parse (nsfe_file (written (replicate 8 0) [] album) 0 (7 ∷ []))
    ≡ ok (record {
      title = text "Game";
      artist = text "Somebody";
      copyright = text "1990";
      track_count = 2;
      first_track = 1;
      tracks =
          record { title = text "Stage"; duration_ms = pos 60000; fade_ms = negsuc 0 }
          ∷ record { title = text "Intro"; duration_ms = pos 90000; fade_ms = pos 5000 }
          ∷ [];
    })
unfolding int32
parse-written_example =
    parse-written (replicate 8 0) [] album 0 (7 ∷ []) (omega arith) refl (clean (text "Game") refl)
      (clean (text "Somebody") refl) (clean (text "1990") refl) songs-IsSong chunks-IsChunk
