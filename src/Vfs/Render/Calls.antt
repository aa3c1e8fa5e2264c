-- ===== src/Vfs/Render/Calls.antt =====
-- `renderTrack` of internal/vfs/vfs.go with the calls that it makes to C through internal/gme/gme.go:
-- what is allocated, opened, used, closed and freed, in order. `defer` is the rest of a call list
-- that follows on every path.
pub mod Protocol
pub mod Session
pub mod Closed
use chipfs.Base.{
  ℕ, zero, suc, List, [], ◌∷◌, ◌++◌, Bool, true, false, not, ◌&&◌, ◌==◌, ltb, if◌then◌else◌, length,
  replicate, Option, none, some, Bytes, Result, ok, err, wrap,
}
use chipfs.Wav.{encode}
use chipfs.Gme
use chipfs.Gme.{Libgme, Emu, open_emu, start_track, set_fade, play, track_ended}
use chipfs.Vfs.{fit_samples}
use chipfs.Vfs.Render.{
  TrackFile, RenderError, reading_source, opening, starting, rendering, out_of_fuel, chunk_len,
  max_samples, expected_samples,
}

-- A call to C, with its success where it can fail.
pub data Call : Type 0 where
  bytes_copied : Call  -- `C.CBytes`
  bytes_freed : Call  -- `C.free`
  opened : Bool → Call
  started : Bool → Call
  fade_set : Call
  end_asked : Call
  played : Call
  deleted : Call

-- The calls that were made, and the result.
abbrev pub Traced : Type 0 → Type 0 → Type 0
Traced E A = List Call × Result E A

module _ {E A : Type 0} where
  infixl 5 ◌>>=◌
  abbrev pub ◌>>=◌ : {B : Type 0} → Traced E A → (A → Traced E B) → Traced E B
  (calls, ok a) >>= f = let (more, r) = f a in (calls ++ more, r)
  (calls, err e) >>= f = (calls, err e)

  -- `defer`
  abbrev pub then_always : Traced E A → List Call → Traced E A
  then_always (calls, r) last = (calls ++ last, r)

  abbrev pub is_ok : Result E A → Bool
  is_ok (ok a) = true
  is_ok (err e) = false

-- `Close`
unfoldable pub close_calls : List Call
close_calls = deleted ∷ []

module _ (lib : Libgme) where
  -- `Open`, whose first test comes before any call.
  unfoldable pub open_calls : Bytes → ℕ → List Call
  open_calls bytes sample_rate =
      if sample_rate == 0
      then []
      else bytes_copied ∷ opened (is_ok (lib.gme_open_data bytes sample_rate)) ∷ bytes_freed ∷ []

  -- `Play`, which makes no call for an empty buffer.
  unfoldable pub play_calls : List ℕ → List Call
  play_calls [] = []
  play_calls (b ∷ buf) = played ∷ []

  -- The loop of `renderTrack`
  unfoldable pub traced_loop :
      ℕ → ℕ → Emu lib.Handle → List ℕ → List ℕ → Traced RenderError (Emu lib.Handle × List ℕ)
  unfolding play_calls
  traced_loop zero max_samples emu chunk all_samples = ([], err out_of_fuel)
  traced_loop (suc fuel) max_samples emu chunk all_samples =
      let round : Traced RenderError (Emu lib.Handle × List ℕ) =
        (end_asked ∷ play_calls chunk, wrap rendering (play lib emu chunk)) >>= λ (emu', chunk').
        traced_loop fuel max_samples emu' chunk' (all_samples ++ chunk') in
      if not (track_ended lib emu) && ltb (length all_samples) max_samples
      then round
      else (end_asked ∷ [], ok (emu, all_samples))

  -- What `renderTrack` does with an emulator that it has opened, but for closing it.
  unfoldable pub traced_session : TrackFile → Emu lib.Handle → Traced RenderError Bytes
  unfolding traced_loop
  traced_session f emu =
      let t = f.entry in
      let start = start_track lib emu t.track_idx in
      (started (is_ok start) ∷ [], wrap starting start) >>= λ ready.
      (fade_set ∷ [], ok (set_fade lib ready t.play_ms t.fade_ms)) >>= λ faded.
      traced_loop (suc (max_samples f)) (max_samples f) faded (replicate chunk_len 0) []
      >>= λ rendered. ([], ok (encode (fit_samples rendered.1 (expected_samples f)) t.opts))

  -- `renderTrack`: `emu.Close` is deferred once the emulator is open.
  unfoldable pub traced_render : (Bytes → Result Bytes Bytes) → TrackFile → Traced RenderError Bytes
  unfolding open_calls close_calls traced_session
  traced_render read_file f = ([], wrap reading_source (read_file f.source_path)) >>= λ bytes.
      (
        open_calls bytes f.entry.opts.sample_rate,
        wrap opening (open_emu lib bytes f.entry.opts.sample_rate),
      )
      >>= λ emu. then_always (traced_session f emu) close_calls
