-- ===== src/Vfs/Tracks.antt =====
-- internal/vfs/vfs.go: what a parsed file turns into, `parseNSF`, `parseGBS` and the loop of
-- `buildTrackList`.
pub mod Entries
pub mod Served
pub mod Distinct
pub mod Named
use chipfs.Base.{
  ℕ, zero, suc, ◌-◌, List, [], ◌∷◌, ◌++◌, Bool, true, false, ◌==◌, ltb, if◌then◌else◌, length,
  replicate, map, take, Bytes, text, itoa, ℤ, pos, Result, ok, err, ◌>>=◌,
}
use chipfs.Wav
use chipfs.Formats.Nsf
use chipfs.Formats.Gbs
use chipfs.Vfs.{TrackEntry, clamp_ms, max_play_ms, max_fade_ms, default_sample_rate}
use chipfs.Vfs.Names.{clean_tag, sanitize_filename}

-- `chipTrack`
pub record ChipTrack : Type 0 where
  pub title : Bytes
  pub play_ms : ℤ
  pub fade_ms : ℤ

-- `chipFile`
pub record ChipFile : Type 0 where
  pub album : Bytes
  pub artist : Bytes
  pub tracks : List ChipTrack
  pub single_track : Bool

abbrev pub blank_track : ChipTrack
blank_track = record { title = []; play_ms = pos 0; fade_ms = pos 0 }

-- `chipTrack{h.Tracks[i].Title, ...}`
abbrev pub chip_track : Nsf.TrackInfo → ChipTrack
chip_track t = record { title = t.title; play_ms = t.duration_ms; fade_ms = t.fade_ms }

-- The loop of `parseNSF` over a slice of `track_count` blank tracks
unfoldable pub nsf_tracks : ℕ → List Nsf.TrackInfo → List ChipTrack
nsf_tracks zero infos = []
nsf_tracks (suc n) [] = blank_track ∷ nsf_tracks n []
nsf_tracks (suc n) (t ∷ infos) = chip_track t ∷ nsf_tracks n infos

-- `parseNSF`
unfoldable pub parse_nsf : Bytes → Result Nsf.Error ChipFile
parse_nsf bytes = do
  h ← Nsf.parse bytes
  ok (record {
    album = h.title;
    artist = h.artist;
    tracks = nsf_tracks h.track_count h.tracks;
    single_track = false;
  })

-- `parseGBS`
unfoldable pub parse_gbs : Bytes → Result Gbs.Error ChipFile
parse_gbs bytes = do
  h ← Gbs.parse bytes
  ok (record {
    album = h.title;
    artist = h.author;
    tracks = replicate h.track_count blank_track;
    single_track = false;
  })

-- `%02d`
unfoldable pub two_digits : ℕ → Bytes
two_digits n = if ltb n 10 then 48 ∷ itoa n else itoa n

-- The title and the file name of the track with the index `i`
unfoldable pub title_of : Bytes → ℕ → Bytes
title_of [] i = text "Track " ++ itoa (suc i)
title_of (c ∷ title) i = c ∷ title

unfoldable pub filename_of : Bool → Bytes → ℕ → Bytes
filename_of true title i = sanitize_filename (title_of title i) ++ text ".wav"
filename_of false [] i = text "Track_" ++ (two_digits (suc i) ++ text ".wav")
filename_of false (c ∷ title) i =
    two_digits (suc i) ++ (text " - " ++ (sanitize_filename (c ∷ title) ++ text ".wav"))

-- The body of the loop of `buildTrackList`
unfoldable pub build_entry : ChipFile → ℕ → ℕ → ℕ → ChipTrack → TrackEntry
build_entry cf default_play_ms default_fade_ms i t =
    let title = clean_tag t.title in
    record {
      filename = filename_of cf.single_track title i;
      track_idx = i;
      play_ms = clamp_ms t.play_ms default_play_ms max_play_ms;
      fade_ms = clamp_ms t.fade_ms default_fade_ms max_fade_ms;
      opts = record {
        sample_rate = default_sample_rate;
        channels = 2;
        metadata = record {
          title = title_of title i;
          artist = clean_tag cf.artist;
          album = clean_tag cf.album;
          album_artist = [];
          track = suc i;
        };
      };
    }

-- The loop, from the index `i`, and the part of `buildTrackList` behind the parser.
unfoldable pub build_entries : ChipFile → ℕ → ℕ → ℕ → List ChipTrack → List TrackEntry
build_entries cf default_play_ms default_fade_ms i [] = []
build_entries cf default_play_ms default_fade_ms i (t ∷ tracks) =
    build_entry cf default_play_ms default_fade_ms i t
    ∷ build_entries cf default_play_ms default_fade_ms (suc i) tracks

unfoldable pub track_list : ChipFile → ℕ → ℕ → List TrackEntry
track_list cf default_play_ms default_fade_ms =
    build_entries cf default_play_ms default_fade_ms 0 cf.tracks
