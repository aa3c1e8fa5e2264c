-- ===== src/Vfs/Tracks/Served.antt =====
-- From a parsed file of internal/vfs/vfs.go to the bytes that its tracks serve.
use chipfs.Base.{
  ℕ, arith, get_elem?-length, ◌≡◌, ◌<◌, ◌++◌, length, get_elem?, some, Bytes, Result, ok,
}
use chipfs.Gme.{Libgme}
use chipfs.Vfs.{TrackEntry}
use chipfs.Vfs.Render.{new_track_file, render_track}
use chipfs.Vfs.Render.Track.{render_track-new_track_file}
use chipfs.Vfs.Tracks.{ChipFile, track_list}
use chipfs.Vfs.Tracks.Entries.{IsServable, track_list-IsServable}

-- Take a file that was parsed, defaults that are positive, and a track of its list whose render
-- succeeds: the render has the size that the listed track reports and begins with the header that
-- the listed track serves.
pub track_list-new_track_file :
    (cf : ChipFile) (default_play_ms default_fade_ms : ℕ)
    → 0 < default_play_ms
    → 0 < default_fade_ms
    → (lib : Libgme) (read_file : Bytes → Result Bytes Bytes) (source_path : Bytes) (i : ℕ)
      {t : TrackEntry} {w : Bytes}
    → get_elem? (track_list cf default_play_ms default_fade_ms) i ≡ some t
    → render_track lib read_file (new_track_file source_path t) ≡ ok w
    → (length w ≡ (new_track_file source_path t).estimated_size)
      × (rest : Bytes) × (w ≡ (new_track_file source_path t).header ++ rest)
track_list-new_track_file cf dp df hp hf lib read_file source_path i {t} {w} listed made =
    let (same_length, servable) = track_list-IsServable cf dp df hp hf in
    let inside : i < length cf.tracks =
      omega (arith, get_elem?-length (track_list cf dp df) i listed, same_length) in
    let (t', listed', fine') = servable i inside in
    let same : t' ≡ t = cc (listed, listed') in
    let fine : IsServable i t = rw same at fine' in
    let (_, _, _, _, _, size, layout, _) =
      render_track-new_track_file lib read_file source_path t fine.play_within fine.fade_within
        made in
    (size, _, layout)
