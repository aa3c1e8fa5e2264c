-- ===== src/Vfs/Names/Tests.antt =====
-- Runs of the name helpers and of the track list of internal/vfs/vfs.go, and the theorems there.
use chipfs.Base.{
  ℕ, ◌<◌, ◌≡◌, ◌≢◌, refl, List, [], ◌∷◌, ◌++◌, false, length, get_elem?, All, Bytes, some, ok, text,
  trim_space, itoa, pos, negsuc, arith,
}
use chipfs.Formats.{equal, slice, byte_at}
use chipfs.Formats.Nsf
use chipfs.Formats.Nsf.Chunks.{nsfe_file}
use chipfs.Vfs.{TrackEntry, clamp_ms}
use chipfs.Vfs.Names.{
  clean_tag, rune_width, sanitize_loop, sanitize_filename, count, less, most_common_loop,
  most_common,
}
use chipfs.Vfs.Names.MostCommon.{non_empty, IsBest, most_common-IsBest}
use chipfs.Vfs.Names.Sanitized.{IsPlain, sanitize_filename-IsPlain}
use chipfs.Vfs.Tracks.{
  ChipFile, parse_nsf, nsf_tracks, blank_track, two_digits, title_of, filename_of, build_entry,
  build_entries, track_list,
}
use chipfs.Vfs.Tracks.Entries.{IsServable, track_list-IsServable}

program : Unit {0}
unfolding equal trim_space itoa clamp_ms clean_tag rune_width sanitize_loop sanitize_filename count
    less most_common_loop most_common two_digits title_of filename_of build_entry build_entries
    track_list
program = tt

placeholder : clean_tag (text "  <?>\t ") ≡ []
unfolding program
placeholder = refl

-- A no-break space, U+00A0, is trimmed as well.
wide_space : clean_tag (194 ∷ 160 ∷ text "a b" ++ (32 ∷ 194 ∷ 160 ∷ [])) ≡ text "a b"
unfolding program
wide_space = refl

-- A valid character of two bytes is kept, and a stray byte becomes U+FFFD.
repaired :
    sanitize_filename (97 ∷ 195 ∷ 169 ∷ 255 ∷ 47 ∷ 98 ∷ [])
    ≡ 97 ∷ 195 ∷ 169 ∷ 239 ∷ 191 ∷ 189 ∷ 95 ∷ 98 ∷ []
unfolding program
repaired = refl

tie : most_common (text "b" ∷ text "a" ∷ [] ∷ [] ∷ [] ∷ text "a" ∷ text "b" ∷ []) ≡ text "a"
unfolding program
tie = refl

sanitize_filename-IsPlain_example :
    All IsPlain (sanitize_filename (text "../etc"))
    × (sanitize_filename (text "../etc") ≢ text ".")
    × (sanitize_filename (text "../etc") ≢ text "..")
sanitize_filename-IsPlain_example = sanitize_filename-IsPlain (text "../etc")

abbrev game : ChipFile
game = record {
  album = text "Game";
  artist = text "?";
  tracks =
      record { title = text "A/B "; play_ms = pos 90000; fade_ms = negsuc 0 } ∷ blank_track ∷ [];
  single_track = false;
}

names :
    (get_elem? (track_list game 180000 8000) 0
      ≡ some (record {
        filename = text "01 - A_B.wav";
        track_idx = 0;
        play_ms = 90000;
        fade_ms = 8000;
        opts = record {
          sample_rate = 44100;
          channels = 2;
          metadata = record {
            title = text "A/B";
            artist = [];
            album = text "Game";
            album_artist = [];
            track = 1;
          };
        };
      }))
unfolding program
names = refl

track_list-IsServable_example :
    (length (track_list game 180000 8000) ≡ 2)
    × ((i : ℕ)
        → i < 2
        → (t : TrackEntry) × (get_elem? (track_list game 180000 8000) i ≡ some t) × IsServable i t)
track_list-IsServable_example = track_list-IsServable game 180000 8000 (omega arith) (omega arith)

-- An NSFe file with three tracks and nothing else.
abbrev three_tracks : Bytes
three_tracks = nsfe_file ((text "INFO", 0 ∷ 128 ∷ 0 ∷ 128 ∷ 0 ∷ 128 ∷ 0 ∷ 0 ∷ 3 ∷ []) ∷ []) 0 []

abbrev three_blanks : ChipFile
three_blanks = record {
  album = [];
  artist = [];
  tracks = blank_track ∷ blank_track ∷ blank_track ∷ [];
  single_track = false;
}

three_tracks_parsed : parse_nsf three_tracks ≡ ok three_blanks
unfolding program parse_nsf Nsf.parse Nsf.parse_nsfe Nsf.chunks Nsf.uint32_at slice Nsf.apply_chunk
    Nsf.apply_info byte_at Nsf.finish Nsf.remap nsf_tracks
three_tracks_parsed = refl

abbrev artists : List Bytes
artists = text "Kondo" ∷ [] ∷ text "Hamano" ∷ text "Kondo" ∷ []

most_common-IsBest_example : IsBest (λ w. count w (non_empty artists)) (most_common artists)
most_common-IsBest_example = most_common-IsBest artists
