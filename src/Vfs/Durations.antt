-- ===== src/Vfs/Durations.antt =====
-- Durations and lengths in internal/vfs/vfs.go: the defaults, `clampMs`, `fitSamples`, `sliceAt`.
use chipfs.Base.{
  ℕ, ◌+◌, ◌-◌, ◌*◌, ◌/◌, ◌≤◌, ◌<◌, ◌≡◌, refl, List, length, take, drop, min, ltb, leb, le→leb,
  Bool-cases, inl, inr, Bytes, ℤ, arith, length-take, length-replicate, length-append, length-drop,
  take_all, drop_all, take-nil, replicate,
}
use native.Mathlib.Nat.{mul-le-mul_right}
use chipfs.Wav
use chipfs.Wav.{sample_count}
use chipfs.Vfs.{Options, apply_defaults, clamp_ms, fit_samples, slice_at}

-- Whatever the flags are, the defaults in use are positive.
pub apply_defaults_positive :
    (o : Options)
    → (0 < (apply_defaults o).play_ms)
      × (0 < (apply_defaults o).fade_ms)
      × (0 < (apply_defaults o).cache_bytes)
unfolding apply_defaults
apply_defaults_positive o = ground arith

-- Whatever a file says, a clamped duration is positive and within the limit, for a default and a
-- limit that are positive.
pub clamp_ms_range :
    (ms : ℤ) (default_ms max_ms : ℕ)
    → 0 < default_ms
    → 0 < max_ms
    → (0 < clamp_ms ms default_ms max_ms) × (clamp_ms ms default_ms max_ms ≤ max_ms)
unfolding clamp_ms
clamp_ms_range ms default_ms max_ms h k = ground arith

pub length-fit_samples : (samples : List ℕ) (n : ℕ) → length (fit_samples samples n) ≡ n
unfolding fit_samples
length-fit_samples samples n =
    let zeros : List ℕ = replicate (n - length samples) 0 in
    let padded : length zeros ≡ n - length samples = length-replicate (n - length samples) 0 in
    ground (arith, length-take n samples, length-append samples zeros, padded)

-- A read of `dest` bytes at `off` is the part of the file there.
pub slice_at_lem : (src : Bytes) (dest off : ℕ) → slice_at src dest off ≡ take dest (drop off src)
unfolding slice_at
slice_at_lem src dest off = elim (Bool-cases (leb (length src) off)) [
  | inl past ↦ rw (past, drop_all src off (ground arith), take-nil) refl
  | inr before ↦ elim (Bool-cases (ltb (length src) (off + dest))) [
    | inl short ↦ rw (
      before,
      short,
      take_all (drop off src) (length src - off) (omega (arith, length-drop off src)),
      take_all (drop off src) dest (ground (arith, length-drop off src)),
    )
    | inr full ↦ let kept : off + dest - off ≡ dest = omega arith in rw (before, full, kept)
  ]
]

pub length-slice_at :
    (src : Bytes) (dest off : ℕ) → length (slice_at src dest off) ≡ min dest (length src - off)
length-slice_at src dest off =
    rw slice_at_lem (omega (arith, length-take dest (drop off src), length-drop off src))

pub sample_count_mono :
    (d d' : ℕ) (opts : Wav.Options) → d ≤ d' → sample_count d opts ≤ sample_count d' opts
unfolding sample_count
sample_count_mono d d' opts h =
    let frames : d * opts.sample_rate / 1000 ≤ d' * opts.sample_rate / 1000 =
      omega (arith, mul-le-mul_right opts.sample_rate h) in
    mul-le-mul_right opts.channels frames

-- Samples that are enough are only cut.
pub fit_samples-take :
    (samples : List ℕ) (n : ℕ) → n ≤ length samples → fit_samples samples n ≡ take n samples
unfolding fit_samples
fit_samples-take samples n h = rw (le→leb n (length samples) h)
