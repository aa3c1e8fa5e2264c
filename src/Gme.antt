-- ===== src/Gme.antt =====
-- internal/gme/gme.go: the wrapper of libgme. The C library is not part of the repository: its
-- calls are the fields of a record that every definition takes, with no law assumed. The buffer
-- that `Play` fills keeps its length whatever the library writes.
use chipfs.Base.{
  ℕ, Bool, List, [], ◌∷◌, Option, none, some, Bytes, overwrite, length, ◌>>=◌, wrap, Result, ok,
  err, ◌==◌, if◌then◌else◌, ◌≡◌, arith, length-overwrite,
}

-- gme.h. A call that can fail gives an error text, `gme_err_t`, or none; `has_fade_msecs` says
-- whether GME_VERSION is at least 0x000604.
pub record Libgme : Type 1 where
  pub Handle : Type 0
  pub gme_open_data : Bytes → ℕ → Result Bytes Handle
  pub gme_track_count : Handle → ℕ
  pub gme_start_track : Handle → ℕ → Handle × Option Bytes
  pub has_fade_msecs : Bool
  pub gme_set_fade_msecs : Handle → ℕ → ℕ → Handle
  pub gme_set_fade : Handle → ℕ → Handle
  pub gme_play : Handle → ℕ → Handle × List ℕ × Option Bytes
  pub gme_track_ended : Handle → Bool

-- `ErrInvalidSampleRate`, and the errors with the library's text.
pub data Error : Type 0 where
  invalid_sample_rate : Error
  gme : Bytes → Error

-- `Emu`; the rate is a positive int once `Open` has passed.
pub record Emu (Handle : Type 0) : Type 0 where
  pub handle : Handle
  pub sample_rate : ℕ

module _ (lib : Libgme) where
  open lib use {
    Handle, gme_open_data, gme_track_count, gme_start_track, has_fade_msecs, gme_set_fade_msecs,
    gme_set_fade, gme_play, gme_track_ended,
  }

  -- `Open`
  unfoldable pub open_emu : Bytes → ℕ → Result Error (Emu Handle)
  open_emu bytes sample_rate =
      if sample_rate == 0
      then err invalid_sample_rate
      else wrap gme (gme_open_data bytes sample_rate) >>= λ handle.
          ok (record { handle = handle; sample_rate = sample_rate })

  -- `TrackCount`
  unfoldable pub track_count : Emu Handle → ℕ
  track_count e = gme_track_count e.handle

  -- The library's `gme_err_t` as a Go error.
  unfoldable pub check : Emu Handle → Handle → Option Bytes → Result Error (Emu Handle)
  check e handle none = ok (record e { handle = handle })
  check e handle (some text) = err (gme text)

  -- `StartTrack`
  unfoldable pub start_track : Emu Handle → ℕ → Result Error (Emu Handle)
  unfolding check
  start_track e index = let (handle, text) = gme_start_track e.handle index in check e handle text

  -- The C helper: a library before 0.6.4 has one length of fade.
  unfoldable pub chipfs_set_fade : Handle → ℕ → ℕ → Handle
  chipfs_set_fade emu start_ms fade_ms =
      if has_fade_msecs then gme_set_fade_msecs emu start_ms fade_ms else gme_set_fade emu start_ms

  -- `SetFade`
  unfoldable pub set_fade : Emu Handle → ℕ → ℕ → Emu Handle
  set_fade e start_ms fade_length_ms = record e {
    handle = chipfs_set_fade e.handle start_ms fade_length_ms;
  }

  -- `Play`: the emulator and the buffer afterwards.
  unfoldable pub play : Emu Handle → List ℕ → Result Error (Emu Handle × List ℕ)
  unfolding check overwrite
  play e [] = ok (e, [])
  play e (b ∷ buf) =
      let (handle, samples, text) = gme_play e.handle (length (b ∷ buf)) in
      check e handle text >>= λ e'. ok (e', overwrite (b ∷ buf) samples)

  -- `TrackEnded`
  unfoldable pub track_ended : Emu Handle → Bool
  track_ended e = gme_track_ended e.handle

  -- `Play` keeps the length of the buffer.
  pub length-play :
      (e : Emu Handle) (buf : List ℕ) {e' : Emu Handle} {buf' : List ℕ}
      → play e buf ≡ ok (e', buf')
      → length buf' ≡ length buf
  unfolding play
  length-play e [] {e'} {buf'} h = ground arith
  length-play e (b ∷ buf) {e'} {buf'} h =
      ground (arith, length-overwrite (b ∷ buf) (gme_play e.handle (length (b ∷ buf))).1)
