-- ===== src/Vfs/Parsers.antt =====
-- internal/vfs/vfs.go: the choice of a parser, `parseSPC`, `buildTrackList` as a whole, and
-- `RenderTrack`. `abs` is `filepath.Abs`, which looks at the working directory and gives a clean
-- path that begins with a separator, or fails.
pub mod Tool
pub mod Album
pub mod Tests
use chipfs.Base.{
  ℕ, zero, suc, List, [], ◌∷◌, ◌++◌, Bool, true, false, ◌&&◌, ◌||◌, ◌==◌, ltb, leb, ◌+◌,
  if◌then◌else◌, length, get_elem?, Option, none, some, Bytes, text, ℤ, pos, negsuc, Result, ok,
  err, ◌>>=◌, wrap,
}
use chipfs.Wav.{Metadata}
use chipfs.Formats.{equal}
use chipfs.Formats.Spc
use chipfs.Gme.{Libgme}
use chipfs.Vfs.{Options, Defaults, apply_defaults, TrackEntry, clamp_ms, max_play_ms, max_fade_ms}
use chipfs.Vfs.Names.{clean_tag}
use chipfs.Vfs.Render.{RenderError, new_track_file, render_track}
use chipfs.Vfs.Tracks.{ChipFile, parse_nsf, parse_gbs, track_list}

-- `filepath.Ext`, on the reversed path: `tail` is what was passed.
unfoldable pub ext_back : Bytes → Bytes → Bytes
ext_back [] tail = []
ext_back (c ∷ s) tail =
    let further = ext_back s (c ∷ tail) in
    if c == 47 then [] else if c == 46 then 46 ∷ tail else further

unfoldable pub reversed : Bytes → Bytes → Bytes
reversed [] acc = acc
reversed (b ∷ s) acc = reversed s (b ∷ acc)

-- `strings.ToLower`, where it matters: the extensions in the map are ASCII, and no other character
-- has one of their letters as its lower case.
unfoldable pub lower : Bytes → Bytes
lower [] = []
lower (b ∷ s) = (if leb 65 b && leb b 90 then b + 32 else b) ∷ lower s

pub data Format : Type 0 where
  nsf : Format
  gbs : Format
  spc : Format

-- `chipParsers`
unfoldable pub chip_parsers : Bytes → Option Format
chip_parsers ext =
    if equal ext (text ".nsf") || equal ext (text ".nsfe")
    then some nsf
    else if equal ext (text ".gbs")
    then some gbs
    else if equal ext (text ".spc")
    then some spc
    else none

-- What lies before the last separator, and behind it
unfoldable pub dir_back : Bytes → Bytes
dir_back [] = []
dir_back (c ∷ s) = let further = dir_back s in if c == 47 then s else further

unfoldable pub base_back : Bytes → Bytes → Bytes
base_back [] acc = acc
base_back (c ∷ s) acc = let further = base_back s (c ∷ acc) in if c == 47 then acc else further

-- `err != nil`
abbrev pub without_error : {E : Type 0} → Result E ChipFile → Option ChipFile
without_error (ok cf) = some cf
without_error (err e) = none

module _ (abs : Bytes → Option Bytes) where
  -- `spcAlbum`. On the root the base is the separator, and there is no album; here it is empty.
  unfoldable pub spc_album : Bytes → Bytes
  spc_album path = elim (abs path) [
    | none ↦ []
    | some full ↦ clean_tag (base_back (dir_back (reversed full [])) [])
  ]

  -- `parseSPC`
  unfoldable pub parse_spc : Bytes → Bytes → Result Spc.Error ChipFile
  parse_spc path bytes = do
    h ← Spc.parse bytes
    ok (record {
      album = spc_album path;
      artist = h.artist;
      tracks =
          record {
            title = h.song_title;
            play_ms = h.play_duration_ms;
            fade_ms = h.fade_duration_ms;
          }
          ∷ [];
      single_track = true;
    })

  unfoldable pub parse_as : Format → Bytes → Bytes → Option ChipFile
  parse_as nsf path bytes = without_error (parse_nsf bytes)
  parse_as gbs path bytes = without_error (parse_gbs bytes)
  parse_as spc path bytes = without_error (parse_spc path bytes)

  module _ (read_file : Bytes → Result Bytes Bytes) where
    -- `buildTrackList`; `none` is nil.
    unfoldable pub build_track_list : Bytes → ℕ → ℕ → Option (List TrackEntry)
    build_track_list path default_play_ms default_fade_ms =
        elim (chip_parsers (lower (ext_back (reversed path []) []))) [
          | none ↦ none
          | some format ↦ elim (read_file path) [
            | err e ↦ none
            | ok bytes ↦ elim (parse_as format path bytes) [
              | none ↦ none
              | some cf ↦ some (track_list cf default_play_ms default_fade_ms)
            ]
          ]
        ]

-- `RenderedTrack`
pub record RenderedTrack : Type 0 where
  pub filename : Bytes
  pub track_count : ℕ
  pub play_ms : ℕ
  pub fade_ms : ℕ
  pub metadata : Metadata
  pub wav : Bytes

-- The errors of `RenderTrack`
pub data ToolError : Type 0 where
  not_recognized : ToolError
  track_out_of_range : ToolError
  render_failed : RenderError → ToolError

module _ (abs : Bytes → Option Bytes) (read_file : Bytes → Result Bytes Bytes) (lib : Libgme) where
  -- The part of `RenderTrack` behind the tests. `t` is a copy of the entry.
  unfoldable pub render_entry : Bytes → ℕ → TrackEntry → ℤ → ℤ → Result ToolError RenderedTrack
  render_entry path count entry play_ms fade_ms =
      let t : TrackEntry = record entry {
        play_ms = clamp_ms play_ms entry.play_ms max_play_ms;
        fade_ms = clamp_ms fade_ms entry.fade_ms max_fade_ms;
      } in
      wrap render_failed (render_track lib read_file (new_track_file path t)) >>= λ wav.
      ok (record {
        filename = t.filename;
        track_count = count;
        play_ms = t.play_ms;
        fade_ms = t.fade_ms;
        metadata = t.opts.metadata;
        wav = wav;
      })

  -- `RenderTrack`, for an index that is not negative
  unfoldable pub render_track_at : Bytes → ℕ → ℤ → ℤ → Options → Result ToolError RenderedTrack
  render_track_at path track_idx play_ms fade_ms opts =
      let d = apply_defaults opts in
      elim (build_track_list abs read_file path d.play_ms d.fade_ms) [
        | none ↦ err not_recognized
        | some tracks ↦ elim (get_elem? tracks track_idx) [
          | none ↦ err track_out_of_range
          | some entry ↦ render_entry path (length tracks) entry play_ms fade_ms
        ]
      ]

  -- `RenderTrack`, for any index
  unfoldable pub render_any_track : Bytes → ℤ → ℤ → ℤ → Options → Result ToolError RenderedTrack
  unfolding render_track_at
  render_any_track path (pos track_idx) play_ms fade_ms opts =
      render_track_at path track_idx play_ms fade_ms opts
  render_any_track path (negsuc n) play_ms fade_ms opts =
      let d = apply_defaults opts in
      elim (build_track_list abs read_file path d.play_ms d.fade_ms) [
        | none ↦ err not_recognized
        | some tracks ↦ err track_out_of_range
      ]
