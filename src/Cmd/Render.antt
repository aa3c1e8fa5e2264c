-- ===== src/Cmd/Render.antt =====
-- cmd/render/main.go: the tool that writes one track to a file. The disk is a parameter; what the
-- program prints is left out.
pub mod Output
pub mod Written
use mathlib.Core.Option
use chipfs.Base.{
  ℕ, suc, ◌-◌, List, [], ◌∷◌, ◌++◌, Bool, true, false, ◌&&◌, ◌||◌, leb, if◌then◌else◌, length, take,
  drop, Option, none, some, Bytes, text, ℤ, pos, magnitude, Result, ok, err, ◌>>=◌, wrap,
}
use chipfs.Formats.{equal}
use chipfs.Gme.{Libgme}
use chipfs.Vfs.{Options}
use chipfs.Vfs.Paths.{base}
use chipfs.Vfs.Tracks.{two_digits}
use chipfs.Vfs.Parsers.{ext_back, reversed, ToolError, RenderedTrack, render_any_track}
use chipfs.Cmd.Flags.{FlagSet, FlagError, help, parse, parse_int}

-- What the flags of `main` point to
pub record Vars : Type 0 where
  pub file_path : Bytes
  pub track_idx : ℤ
  pub out_path : Bytes
  pub duration_ms : ℤ
  pub fade_ms : ℤ

abbrev pub standard : Vars
standard = record {
  file_path = [];
  track_idx = pos 0;
  out_path = [];
  duration_ms = pos 0;
  fade_ms = pos 0;
}

unfoldable pub is_bool : Bytes → Option Bool
is_bool name =
    if equal name (text "file")
      || equal name (text "track")
      || equal name (text "out")
      || equal name (text "duration")
      || equal name (text "fade")
    then some false
    else none

unfoldable pub set : Bytes → Bytes → Vars → Option Vars
set name value vars =
    if equal name (text "file")
    then some (record vars { file_path = value })
    else if equal name (text "track")
    then Option.map (λ n. record vars { track_idx = n }) (parse_int value)
    else if equal name (text "out")
    then some (record vars { out_path = value })
    else if equal name (text "duration")
    then Option.map (λ n. record vars { duration_ms = n }) (parse_int value)
    else if equal name (text "fade")
    then Option.map (λ n. record vars { fade_ms = n }) (parse_int value)
    else none

abbrev pub flag_set : FlagSet Vars
flag_set = record { is_bool = is_bool; set = set }

-- `strings.TrimSuffix`
unfoldable pub trim_suffix : Bytes → Bytes → Bytes
trim_suffix s suffix =
    let front = length s - length suffix in
    if leb (length suffix) (length s) && equal (drop front s) suffix then take front s else s

-- The name of the output, when none is given. A track that was rendered has an index from 0 on.
unfoldable pub default_out : Bytes → ℤ → Bytes
default_out file_path track_idx =
    trim_suffix (base file_path) (ext_back (reversed file_path []) [])
    ++ (text "_track" ++ (two_digits (suc (magnitude track_idx)) ++ text ".wav"))

abbrev pub out_or : Bytes → Bytes → Bytes
out_or [] standard_path = standard_path
out_or (c ∷ out_path) standard_path = c ∷ out_path

abbrev pub no_options : Options
no_options = record { default_play_ms = pos 0; default_fade_ms = pos 0; cache_bytes = pos 0 }

pub data RunError : Type 0 where
  tool : ToolError → RunError
  writing : Bytes → RunError

-- How the program ends when it writes no file: `flag.Parse` exits by itself.
pub data Exit : Type 0 where
  flags_refused : FlagError → Exit
  usage : Exit
  failed : RunError → Exit

abbrev pub status : Exit → ℕ
status (flags_refused help) = 0
status (flags_refused _) = 2
status usage = 1
status (failed _) = 1

module _ (abs : Bytes → Option Bytes) (read_file : Bytes → Result Bytes Bytes) (lib : Libgme)
    (write_file : Bytes → Bytes → Option Bytes) where
  -- `run`: the path that was written, and what was rendered.
  unfoldable pub run : Vars → Result RunError (Bytes × RenderedTrack)
  run v =
      wrap tool (
        render_any_track abs read_file lib v.file_path v.track_idx v.duration_ms v.fade_ms
          no_options)
      >>= λ t.
          let out_path = out_or v.out_path (default_out v.file_path v.track_idx) in
          elim (write_file out_path t.wav) [
            | some text ↦ err (writing text)
            | none ↦ ok (out_path, t)
          ]

  -- The test for a file in `main`
  abbrev with_file : Vars → Result Exit (Bytes × RenderedTrack)
  with_file v = elim v.file_path [ [] ↦ err usage | _ ∷ _ ↦ wrap failed (run v) ]

  -- `main`
  unfoldable pub main : List Bytes → Result Exit (Bytes × RenderedTrack)
  main args = wrap flags_refused (parse flag_set none standard args) >>= with_file
