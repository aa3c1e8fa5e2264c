-- ===== src/Cmd/Tests.antt =====
-- Command lines of the two programs, and the theorems there.
use chipfs.Base.{
  ◌≡◌, refl, [], ◌∷◌, true, itoa, itoa_loop, Option, none, some, Bytes, text, pos, negsuc, Result,
  ok, err, arith,
}
use chipfs.Formats.{equal}
use chipfs.Vfs.Nodes.{Root, Stat}
use chipfs.Vfs.Paths.{base, onto, without_slashes}
use chipfs.Vfs.Tracks.{two_digits}
use chipfs.Vfs.Parsers.{base_back, ext_back, reversed}
use chipfs.Cmd.Flags.{
  parse, shape, name_shape, after_dashes, cut_equals, parse_int, parse_uint, base_of, base_behind,
  digits_in, digit_of, underscore_ok, underscores_from,
}
use chipfs.Cmd.Chipfs.{
  unmount_on_signals, options_of, is_bool, set, Config, MountOptions, parse_args, start,
  source_and_mountpoint_required,
}
use chipfs.Cmd.Chipfs.Written.{write_args, parse_args-write_args}
use chipfs.Cmd.Chipfs.Started.{root_for, start-write_args}
use chipfs.Cmd.Render.{default_out, trim_suffix}

-- `ParseInt` with the base 0: prefixes and underscores
numbers :
    (parse_int (text "0x1F") ≡ some (pos 31))
    × (parse_int (text "-017") ≡ some (negsuc 14))
    × (parse_int (text "1_000") ≡ some (pos 1000))
    × (parse_int (text "1__0") ≡ none)
    × (parse_int (text "0") ≡ some (pos 0))
    × (parse_int (text "0b") ≡ none)
    × (parse_int (text "+5") ≡ some (pos 5))
    × (parse_int (text "9223372036854775808") ≡ none)
    × (parse_int (text "-9223372036854775808") ≡ some (negsuc 9223372036854775807))
unfolding parse_int parse_uint base_of base_behind digits_in digit_of underscore_ok underscores_from
numbers = (refl, refl, refl, refl, refl, refl, refl, refl, refl)

abbrev cfg : Config
cfg = record {
  source = text "-music";
  mountpoint = text "/mnt/a=b";
  allow_other = true;
  default_length_sec = pos 200;
  fade_length_sec = pos 5;
  cache_size_mb = pos 64;
}

parse_args-write_args_example : parse_args (write_args cfg) ≡ ok cfg
parse_args-write_args_example =
    parse_args-write_args cfg (λ e. cc e) (λ e. cc e) (omega arith) (omega arith) (omega arith)

abbrev stat : Bytes → Result Bytes Stat
stat path = ok (record { size = 4096; mtime = none })

abbrev mount : Bytes → Root → MountOptions → Option Bytes
mount path root opts = none

start-write_args_example : start stat mount (write_args cfg) ≡ ok (root_for cfg 200 5 64)
start-write_args_example =
    start-write_args cfg 200 5 64
      (
        refl,
        refl,
        refl,
        omega arith,
        omega arith,
        omega arith,
        omega arith,
        omega arith,
        omega arith,
      )
      stat mount {st = record { size = 4096; mtime = none }} (λ e. cc e) (λ e. cc e) refl refl

-- The products of the options wrap around.
wrapped :
    options_of (record cfg { default_length_sec = pos 18446744073709552; cache_size_mb = negsuc 0 })
    ≡ record { default_play_ms = pos 384; default_fade_ms = pos 5000; cache_bytes = negsuc 1048575 }
unfolding options_of
wrapped = refl

-- A mount that is busy at the first signal
busy_once : unmount_on_signals (some (text "busy") ∷ none ∷ none ∷ []) ≡ (text "busy" ∷ [], true)
unfolding unmount_on_signals
busy_once = refl

-- A source without a mountpoint
no_mountpoint : parse_args (text "-source=/music" ∷ []) ≡ err source_and_mountpoint_required
unfolding parse_args parse shape name_shape after_dashes cut_equals is_bool set equal
no_mountpoint = refl

out_name : default_out (text "/music/game.nsfe") (pos 2) ≡ text "game_track03.wav"
unfolding default_out base onto without_slashes base_back ext_back reversed trim_suffix equal
    two_digits itoa itoa_loop
out_name = refl
