-- ===== src/Vfs/Scan/SpcTrack.antt =====
-- From an SPC file in the source directory to the track that a client of the mount reads, with the
-- album and the album artist of its folder.
use chipfs.Base.{ℕ, ◌≡◌, refl, [], ◌∷◌, true, Option, some, Bytes, Result, ok}
use chipfs.Cache.{Cache}
use chipfs.Formats.Spc
use chipfs.Formats.Spc.Written.{IsSpc, parse-IsSpc}
use chipfs.Vfs.{TrackEntry}
use chipfs.Vfs.Parsers.{
  spc, chip_parsers, lower, ext_back, reversed, spc_album, parse_spc, parse_as, build_track_list,
}
use chipfs.Vfs.Tracks.{ChipFile, ChipTrack, build_entry, build_entries, track_list}
use chipfs.Vfs.Scan.Mounted.{artist}

-- The track of an SPC file with the header `h`, and what the mount makes of the file.
abbrev spc_track : Spc.Header → ChipTrack
spc_track h = record {
  title = h.song_title;
  play_ms = h.play_duration_ms;
  fade_ms = h.fade_duration_ms;
}

abbrev pub spc_chip_file : (Bytes → Option Bytes) → Bytes → Spc.Header → ChipFile
spc_chip_file abs path h = record {
  album = spc_album abs path;
  artist = h.artist;
  tracks = spc_track h ∷ [];
  single_track = true;
}

abbrev pub spc_entry : (Bytes → Option Bytes) → Bytes → Spc.Header → ℕ → ℕ → TrackEntry
spc_entry abs path h default_play_ms default_fade_ms =
    build_entry (spc_chip_file abs path h) default_play_ms default_fade_ms 0 (spc_track h)

module _ (abs : Bytes → Option Bytes) (read_file : Bytes → Result Bytes Bytes) (path : Bytes)
    (dp df : ℕ) where
  pub build_track_list-IsSpc :
      {bytes : Bytes} {h : Spc.Header}
      → chip_parsers (lower (ext_back (reversed path []) [])) ≡ some spc
      → read_file path ≡ ok bytes
      → IsSpc bytes h
      → build_track_list abs read_file path dp df ≡ some (spc_entry abs path h dp df ∷ [])
  unfolding build_track_list parse_as parse_spc track_list build_entries
  build_track_list-IsSpc named held made =
      rw (build_track_list, named, held, parse_as, parse_spc, parse-IsSpc made) refl
