-- ===== src/Vfs.antt =====
-- internal/vfs/vfs.go: what a track is, how long it plays, and the helpers that cut samples and
-- bytes to size. A duration that a file or a flag gives is a signed int; one that has passed
-- `clampMs` or `applyDefaults` is positive and a plain number.
pub mod Durations
pub mod Render
pub mod Store
pub mod Names
pub mod Tracks
pub mod Parsers
pub mod Paths
pub mod Nodes
pub mod Scan
pub mod Tests
use chipfs.Base.{
  ℕ, ◌+◌, ◌-◌, ◌*◌, ◌<◌, List, [], ◌++◌, ltb, leb, if◌then◌else◌, length, take, drop, replicate,
  min, Bytes, ℤ, is_not_positive, magnitude,
}
use chipfs.Wav
use chipfs.Wav.{Metadata}

-- `defaultSampleRate`, `maxPlayMs`, `maxFadeMs`
abbrev pub default_sample_rate : ℕ
default_sample_rate = 44100

abbrev pub max_play_ms : ℕ
max_play_ms = 20 * 60 * 1000

abbrev pub max_fade_ms : ℕ
max_fade_ms = 60 * 1000

-- `Options` as a caller gives it, and as `applyDefaults` leaves it.
pub record Options : Type 0 where
  pub default_play_ms : ℤ
  pub default_fade_ms : ℤ
  pub cache_bytes : ℤ

pub record Defaults : Type 0 where
  pub play_ms : ℕ
  pub fade_ms : ℕ
  pub cache_bytes : ℕ

-- `if n <= 0 { n = standard }`
abbrev pub positive_or : ℤ → ℕ → ℕ
positive_or n standard = if is_not_positive n then standard else magnitude n

-- `applyDefaults`
unfoldable pub apply_defaults : Options → Defaults
apply_defaults o = record {
  play_ms = positive_or o.default_play_ms 180000;
  fade_ms = positive_or o.default_fade_ms 8000;
  cache_bytes = positive_or o.cache_bytes (256 * 1024 * 1024);
}

-- `clampMs`
unfoldable pub clamp_ms : ℤ → ℕ → ℕ → ℕ
clamp_ms ms default_ms max_ms = min (positive_or ms default_ms) max_ms

-- `trackEntry`
pub record TrackEntry : Type 0 where
  pub filename : Bytes
  pub track_idx : ℕ
  pub play_ms : ℕ
  pub fade_ms : ℕ
  pub opts : Wav.Options

-- `totalMs`
unfoldable pub total_ms : TrackEntry → ℕ
total_ms t = t.play_ms + t.fade_ms

-- `fitSamples`
unfoldable pub fit_samples : List ℕ → ℕ → List ℕ
fit_samples samples n =
    if leb n (length samples) then take n samples else samples ++ replicate (n - length samples) 0

-- `sliceAt`, where only the length of `dest` counts. An offset is never negative.
unfoldable pub slice_at : Bytes → ℕ → ℕ → Bytes
slice_at src dest off =
    if leb (length src) off
    then []
    else take ((if ltb (length src) (off + dest) then length src else off + dest) - off)
        (drop off src)
