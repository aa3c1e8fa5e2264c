-- ===== src/Vfs/Parsers/Tool.antt =====
-- `RenderTrack` of internal/vfs/vfs.go: the tool renders the entries of `buildTrackList`, as they
-- are without the album artist that the mount gives to the tracks of SPC files.
use chipfs.Base.{
  get_elem?-length, Result-cases, ℕ, ◌≤◌, ◌<◌, ◌≡◌, refl, sym, ap, inl, inr, List, [], length,
  get_elem?, Option, some, Option-cases, Bytes, pos, Result, ok, arith,
}
use chipfs.Gme.{Libgme}
use chipfs.Vfs.{Options, apply_defaults, TrackEntry, clamp_ms, max_play_ms, max_fade_ms}
use chipfs.Vfs.Durations.{apply_defaults_positive}
use chipfs.Vfs.Render.{new_track_file, render_track}
use chipfs.Vfs.Tracks.{ChipFile, track_list}
use chipfs.Vfs.Tracks.Entries.{IsServable, track_list-IsServable}
use chipfs.Vfs.Parsers.{
  Format, chip_parsers, lower, ext_back, reversed, parse_as, build_track_list, render_entry,
  render_track_at,
}

-- With no override, a duration within the limit stays what it is.
clamp_ms_kept : (ms max_ms : ℕ) → ms ≤ max_ms → clamp_ms (pos 0) ms max_ms ≡ ms
unfolding clamp_ms
clamp_ms_kept ms max_ms h = omega arith

module _ (abs : Bytes → Option Bytes) (read_file : Bytes → Result Bytes Bytes) (lib : Libgme)
    (path : Bytes) where
  render_entry_kept :
      (count : ℕ) (t : TrackEntry) {w : Bytes}
      → t.play_ms ≤ max_play_ms
      → t.fade_ms ≤ max_fade_ms
      → render_track lib read_file (new_track_file path t) ≡ ok w
      → render_entry abs read_file lib path count t (pos 0) (pos 0)
        ≡ ok (record {
          filename = t.filename;
          track_count = count;
          play_ms = t.play_ms;
          fade_ms = t.fade_ms;
          metadata = t.opts.metadata;
          wav = w;
        })
  unfolding render_entry
  render_entry_kept count t hp hf made =
      rw (clamp_ms_kept t.play_ms max_play_ms hp, clamp_ms_kept t.fade_ms max_fade_ms hf, made) refl

module _ (abs : Bytes → Option Bytes) (read_file : Bytes → Result Bytes Bytes) (path : Bytes) where
  -- A track list comes from a parsed file.
  pub build_track_list_parsed :
      (dp df : ℕ) {tracks : List TrackEntry}
      → build_track_list abs read_file path dp df ≡ some tracks
      → (cf : ChipFile) × (format : Format) × (bytes : Bytes) × (parse_as abs format path bytes
          ≡ some cf)
        × (tracks ≡ track_list cf dp df)
  unfolding build_track_list
  build_track_list_parsed dp df h =
      elim (Option-cases (chip_parsers (lower (ext_back (reversed path []) [])))) [
        | inl unknown ↦ absurd (cc (rw (build_track_list, unknown) at h))
        | inr (format, known) ↦ elim (Result-cases (read_file path)) [
          | inl (e, failed) ↦ absurd (cc (rw (build_track_list, known, failed) at h))
          | inr (bytes, got) ↦ elim (Option-cases (parse_as abs format path bytes)) [
            | inl bad ↦ absurd (cc (rw (build_track_list, known, got, bad) at h))
            | inr (cf, parsed) ↦
                (cf, format, bytes, parsed, cc (rw (build_track_list, known, got, parsed) at h))
          ]
        ]
      ]

-- Every entry of a track list can be rendered as promised.
pub listed-IsServable :
    (abs : Bytes → Option Bytes) (read_file : Bytes → Result Bytes Bytes) (path : Bytes) (dp df : ℕ)
    {tracks : List TrackEntry} (i : ℕ) {t : TrackEntry}
    → 0 < dp
    → 0 < df
    → build_track_list abs read_file path dp df ≡ some tracks
    → get_elem? tracks i ≡ some t
    → IsServable i t
listed-IsServable abs read_file path dp df {tracks} i {t} hp hf listed at_i =
    let (cf, _, _, _, from) = build_track_list_parsed abs read_file path dp df listed in
    let (same_length, servable) = track_list-IsServable cf dp df hp hf in
    let inside : i < length cf.tracks =
      omega (arith, get_elem?-length tracks i at_i, ap length from, same_length) in
    let (t', at_i', fine) = servable i inside in
    let same : t' ≡ t = cc (at_i, at_i', from) in rw (sym same) fine

module _ (abs : Bytes → Option Bytes) (read_file : Bytes → Result Bytes Bytes) (lib : Libgme)
    (path : Bytes) where
  -- `RenderTrack` without overrides gives, for every entry that `buildTrackList` has for the file
  -- and that renders, the render of the track file made of that entry, under the listed name.
  pub render_track_at-render_track :
      (opts : Options) {tracks : List TrackEntry} (i : ℕ) {t : TrackEntry} {w : Bytes}
      → build_track_list abs read_file path
          (apply_defaults opts).play_ms
          (apply_defaults opts).fade_ms
        ≡ some tracks
      → get_elem? tracks i ≡ some t
      → render_track lib read_file (new_track_file path t) ≡ ok w
      → render_track_at abs read_file lib path i (pos 0) (pos 0) opts
        ≡ ok (record {
          filename = t.filename;
          track_count = length tracks;
          play_ms = t.play_ms;
          fade_ms = t.fade_ms;
          metadata = t.opts.metadata;
          wav = w;
        })
  unfolding render_track_at
  render_track_at-render_track opts {tracks} i {t} {w} listed at_i made =
      let d = apply_defaults opts in
      let (play_pos, fade_pos, _) = apply_defaults_positive opts in
      let fine =
        listed-IsServable abs read_file path d.play_ms d.fade_ms i play_pos fade_pos listed at_i in
      rw (render_track_at, listed, at_i)
        (render_entry_kept abs read_file lib path (length tracks) t fine.play_within
          fine.fade_within made)
