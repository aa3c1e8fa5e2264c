-- ===== src/Cmd/Chipfs.antt =====
-- cmd/chipfs/main.go: the flags of the mount, and the start of it. `os.Stat` and `fs.Mount` are
-- arguments, and so are the answers of `Unmount`; what the program prints else is left out.
pub mod Written
pub mod Started
use mathlib.Core.Option
use chipfs.Base.{
  ◌||◌, ℕ, List, [], ◌∷◌, Bool, true, false, if◌then◌else◌, Option, none, some, Bytes, text, ℤ, pos,
  negsuc, scaled, int64, Result, ok, err, ◌>>=◌, wrap,
}
use chipfs.Formats.{equal}
use chipfs.Vfs.{Options}
use chipfs.Vfs.Nodes.{Root, RootError, Stat, new_root}
use chipfs.Cmd.Flags.{FlagSet, FlagError, parse, parse_bool, parse_int}

-- `config`, which is also what the flags point to while they are parsed
pub record Config : Type 0 where
  pub source : Bytes
  pub mountpoint : Bytes
  pub allow_other : Bool
  pub default_length_sec : ℤ
  pub fade_length_sec : ℤ
  pub cache_size_mb : ℤ

abbrev pub standard : Config
standard = record {
  source = [];
  mountpoint = [];
  allow_other = false;
  default_length_sec = pos 180;
  fade_length_sec = pos 8;
  cache_size_mb = pos 256;
}

unfoldable pub is_bool : Bytes → Option Bool
is_bool name =
    if equal name (text "allow_other")
    then some true
    else if equal name (text "source")
        || equal name (text "mountpoint")
        || equal name (text "default_length")
        || equal name (text "fade_length")
        || equal name (text "cache_size_mb")
    then some false
    else none

unfoldable pub set : Bytes → Bytes → Config → Option Config
set name value vars =
    if equal name (text "source")
    then some (record vars { source = value })
    else if equal name (text "mountpoint")
    then some (record vars { mountpoint = value })
    else if equal name (text "allow_other")
    then Option.map (λ b. record vars { allow_other = b }) (parse_bool value)
    else if equal name (text "default_length")
    then Option.map (λ n. record vars { default_length_sec = n }) (parse_int value)
    else if equal name (text "fade_length")
    then Option.map (λ n. record vars { fade_length_sec = n }) (parse_int value)
    else if equal name (text "cache_size_mb")
    then Option.map (λ n. record vars { cache_size_mb = n }) (parse_int value)
    else none

abbrev pub flag_set : FlagSet Config
flag_set = record { is_bool = is_bool; set = set }

pub data ArgsError : Type 0 where
  flags : FlagError → ArgsError
  source_and_mountpoint_required : ArgsError

abbrev pub with_both : Config → Result ArgsError Config
with_both cfg = elim cfg.source [
  | [] ↦ err source_and_mountpoint_required
  | _ ∷ _ ↦ elim cfg.mountpoint [ [] ↦ err source_and_mountpoint_required | _ ∷ _ ↦ ok cfg ]
]

-- `parseArgs`
unfoldable pub parse_args : List Bytes → Result ArgsError Config
parse_args args = wrap flags (parse flag_set none standard args) >>= with_both

-- The options that `run` gives to `NewRoot`; the products wrap around.
unfoldable pub options_of : Config → Options
options_of cfg = record {
  default_play_ms = int64 (scaled cfg.default_length_sec 1000);
  default_fade_ms = int64 (scaled cfg.fade_length_sec 1000);
  cache_bytes = int64 (scaled (int64 (scaled cfg.cache_size_mb 1024)) 1024);
}

pub data RunError : Type 0 where
  creating : RootError → RunError
  mounting : Bytes → RunError

pub data StartError : Type 0 where
  arguments : ArgsError → StartError
  running : RunError → StartError

-- `MountOptions`, as `fuseMountOptions` fills it
pub record MountOptions : Type 0 where
  pub allow_other : Bool
  pub direct_mount : Bool

unfoldable pub fuse_mount_options : Config → MountOptions
fuse_mount_options cfg = record { allow_other = cfg.allow_other; direct_mount = true }

-- The end of `run`: each signal calls `Unmount`, whose answers are listed in the order of the
-- signals, and a failure is reported and leaves the mount. `Wait` returns, which is `true` here,
-- once a call has succeeded.
unfoldable pub unmount_on_signals : List (Option Bytes) → List Bytes × Bool
unmount_on_signals [] = ([], false)
unmount_on_signals (none ∷ answers) = ([], true)
unmount_on_signals (some text ∷ answers) =
    let (reports, ended) = unmount_on_signals answers in (text ∷ reports, ended)

module _ {E : Type 0} (stat : Bytes → Result E Stat)
    (mount : Bytes → Root → MountOptions → Option Bytes) where
  -- `run`, to the point where it waits for the end of the mount: the root that is mounted.
  unfoldable pub run : Config → Result RunError Root
  run cfg = wrap creating (new_root stat cfg.source (options_of cfg)) >>= λ root.
      elim (mount cfg.mountpoint root (fuse_mount_options cfg)) [
        | some text ↦ err (mounting text)
        | none ↦ ok root
      ]

  -- `main`, which exits with the status 1 on either error
  unfoldable pub start : List Bytes → Result StartError Root
  start args = wrap arguments (parse_args args) >>= λ cfg. wrap running (run cfg)
