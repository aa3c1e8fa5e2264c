-- ===== src/Cmd/Chipfs/Started.antt =====
-- What cmd/chipfs mounts for a command line.
use chipfs.Base.{
  ℕ, zero, suc, ◌*◌, ◌%◌, ◌^◌, ◌<◌, ◌≡◌, ◌≢◌, refl, ap, ◌∙◌, [], ◌∷◌, true, Option, none, Bytes,
  pos, scaled, int64, from_bits, Result, ok, arith, lt→ltb,
}
use chipfs.Cache.{new}
use chipfs.Vfs.{Options, Defaults, apply_defaults, positive_or}
use chipfs.Vfs.Nodes.{Root, Stat, new_root}
use chipfs.Cmd.Chipfs.{Config, MountOptions, options_of, run, start, fuse_mount_options}
use chipfs.Cmd.Chipfs.Written.{write_args, parse_args-write_args}

scaled_fits : (n k : ℕ) → n * k < 2 ^ 63 → int64 (scaled (pos n) k) ≡ pos (n * k)
scaled_fits n k h =
    let small : (n * k) % 2 ^ 64 ≡ n * k = omega (arith, h) in
    ap from_bits small ∙ rw (lt→ltb (n * k) (2 ^ 63) h) refl

positive_or-pos : (n standard : ℕ) → 0 < n → positive_or (pos n) standard ≡ n
positive_or-pos zero standard h = absurd (omega arith)
positive_or-pos (suc n) standard h = refl

abbrev with_defaults : Bytes → Defaults → Root
with_defaults dir d = record {
  source_dir = dir;
  default_play_ms = d.play_ms;
  default_fade_ms = d.fade_ms;
  cache = new d.cache_bytes;
}

new_root_made :
    {E : Type 0} (stat : Bytes → Result E Stat) (dir : Bytes) (opts : Options) {st : Stat}
    → dir ≢ []
    → stat dir ≡ ok st
    → new_root stat dir opts ≡ ok (with_defaults dir (apply_defaults opts))
unfolding new_root
new_root_made stat [] opts some_dir found = absurd (some_dir refl)
new_root_made stat (c ∷ dir) opts some_dir found = rw (found, new_root) refl

-- A configuration with positive numbers whose products fit into 64 bits
abbrev pub IsModest : Config → ℕ → ℕ → ℕ → Type 0
IsModest cfg play fade size =
    (cfg.default_length_sec ≡ pos play)
    × (cfg.fade_length_sec ≡ pos fade)
    × (cfg.cache_size_mb ≡ pos size)
    × (0 < play)
    × (0 < fade)
    × (0 < size)
    × (play * 1000 < 2 ^ 63)
    × (fade * 1000 < 2 ^ 63)
    × (size * 1024 * 1024 < 2 ^ 63)

-- The root that it asks for: seconds as milliseconds, megabytes as bytes
abbrev pub root_for : Config → ℕ → ℕ → ℕ → Root
root_for cfg play fade size = record {
  source_dir = cfg.source;
  default_play_ms = play * 1000;
  default_fade_ms = fade * 1000;
  cache = new (size * 1024 * 1024);
}

module _ (cfg : Config) (play fade size : ℕ) (modest : IsModest cfg play fade size) where
  options_lem : options_of cfg ≡ record {
    default_play_ms = pos (play * 1000);
    default_fade_ms = pos (fade * 1000);
    cache_bytes = pos (size * 1024 * 1024);
  }
  unfolding options_of
  options_lem =
      let (is_play, is_fade, is_size, _, _, _, play_fits, fade_fits, size_fits) = modest in
      rw
        (
          is_play,
          is_fade,
          is_size,
          scaled_fits play 1000 play_fits,
          scaled_fits fade 1000 fade_fits,
          scaled_fits size 1024 (omega (arith, size_fits)),
          scaled_fits (size * 1024) 1024 size_fits,
        )
        refl

  defaults_lem :
      apply_defaults (options_of cfg)
      ≡ record { play_ms = play * 1000; fade_ms = fade * 1000; cache_bytes = size * 1024 * 1024 }
  unfolding apply_defaults
  defaults_lem =
      let (_, _, _, some_play, some_fade, some_size, _, _, _) = modest in
      rw
        (
          options_lem,
          positive_or-pos (play * 1000) 180000 (omega (arith, some_play)),
          positive_or-pos (fade * 1000) 8000 (omega (arith, some_fade)),
          positive_or-pos (size * 1024 * 1024) 268435456 (omega (arith, some_size)),
        )
        refl

  module _ {E : Type 0} (stat : Bytes → Result E Stat)
      (mount : Bytes → Root → MountOptions → Option Bytes) where
    new_root_lem :
        {st : Stat}
        → cfg.source ≢ []
        → stat cfg.source ≡ ok st
        → new_root stat cfg.source (options_of cfg) ≡ ok (root_for cfg play fade size)
    new_root_lem some_source found =
        new_root_made stat cfg.source (options_of cfg) some_source found
        ∙ ap (λ (d : Defaults). ok (with_defaults cfg.source d)) defaults_lem

    -- Take a command line written from a configuration with a source that `os.Stat` finds, a
    -- mountpoint, and positive numbers that fit into 64 bits as milliseconds and bytes, and let
    -- `fs.Mount` accept the root. The program mounts, at that mountpoint, the source with the play
    -- and fade times in milliseconds, and an empty cache of that many megabytes.
    pub start-write_args :
        {st : Stat}
        → cfg.source ≢ []
        → cfg.mountpoint ≢ []
        → stat cfg.source ≡ ok st
        → mount cfg.mountpoint
            (root_for cfg play fade size)
            (record { allow_other = cfg.allow_other; direct_mount = true })
          ≡ none
        → start stat mount (write_args cfg) ≡ ok (root_for cfg play fade size)
    unfolding start run fuse_mount_options
    start-write_args some_source some_mountpoint found accepted =
        let (is_play, is_fade, is_size, _, _, _, play_fits, fade_fits, size_fits) = modest in
        rw
          (
            parse_args-write_args cfg some_source some_mountpoint
                (rw is_play (omega (arith, play_fits))) (rw is_fade (omega (arith, fade_fits)))
                (rw is_size (omega (arith, size_fits))),
            new_root_lem some_source found,
            accepted,
          )
          refl
