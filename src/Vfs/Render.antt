-- ===== src/Vfs/Render.antt =====
-- internal/vfs/vfs.go: `TrackFile`, and `renderTrack` with its loop over the emulator. The disk
-- and libgme are parameters.
pub mod Loop
pub mod Track
pub mod Calls
use chipfs.Base.{
  ℕ, zero, suc, ◌+◌, ◌*◌, List, [], ◌∷◌, ◌++◌, not, ◌&&◌, ltb, if◌then◌else◌, length, replicate,
  Bytes, Result, ok, err, ◌>>=◌, wrap,
}
use chipfs.Wav
use chipfs.Wav.{sample_count, encode, header_bytes}
use chipfs.Gme
use chipfs.Gme.{Libgme, Emu, open_emu, start_track, set_fade, play, track_ended}
use chipfs.Vfs.{TrackEntry, total_ms, max_play_ms, max_fade_ms, fit_samples}

-- `TrackFile`, without its mtime and its store
pub record TrackFile : Type 0 where
  pub entry : TrackEntry
  pub source_path : Bytes
  pub header : Bytes
  pub estimated_size : ℕ

-- `newTrackFile`
unfoldable pub new_track_file : Bytes → TrackEntry → TrackFile
unfolding total_ms
new_track_file source_path t = record {
  entry = t;
  source_path = source_path;
  header = header_bytes (total_ms t) t.opts;
  estimated_size = Wav.estimated_size (total_ms t) t.opts;
}

-- Why a render fails. `out_of_fuel` is no Go value: the loop ran out of rounds.
pub data RenderError : Type 0 where
  reading_source : Bytes → RenderError
  opening : Gme.Error → RenderError
  starting : Gme.Error → RenderError
  rendering : Gme.Error → RenderError
  out_of_fuel : RenderError

abbrev pub chunk_len : ℕ
chunk_len = 4096

-- `maxSamples` and `expectedSamples`
abbrev pub max_samples : TrackFile → ℕ
max_samples f = sample_count (max_play_ms + max_fade_ms) f.entry.opts

abbrev pub expected_samples : TrackFile → ℕ
expected_samples f = sample_count (f.entry.play_ms + f.entry.fade_ms) f.entry.opts

module _ (lib : Libgme) where
  -- The loop of `renderTrack`. The result is the emulator as the loop left it, and the samples.
  unfoldable pub render_loop :
      ℕ → ℕ → Emu lib.Handle → List ℕ → List ℕ → Result RenderError (Emu lib.Handle × List ℕ)
  render_loop zero max_samples emu chunk all_samples = err out_of_fuel
  render_loop (suc fuel) max_samples emu chunk all_samples =
      let round : Result RenderError (Emu lib.Handle × List ℕ) =
        wrap rendering (play lib emu chunk) >>= λ (emu', chunk').
        render_loop fuel max_samples emu' chunk' (all_samples ++ chunk') in
      if not (track_ended lib emu) && ltb (length all_samples) max_samples
      then round
      else ok (emu, all_samples)

  -- Every round adds at least one sample, so as many rounds as samples, and one more, are enough.
  unfoldable pub render_samples : ℕ → Emu lib.Handle → Result RenderError (Emu lib.Handle × List ℕ)
  unfolding render_loop
  render_samples max_samples emu =
      render_loop (suc max_samples) max_samples emu (replicate chunk_len 0) []

  -- The first half of `renderTrack`, up to the emulator that is ready to play; `read_file` is
  -- `os.ReadFile`, which may fail with a text.
  unfoldable pub set_up :
      (Bytes → Result Bytes Bytes) → TrackFile → Result RenderError (Emu lib.Handle)
  set_up read_file f = do
    let t = f.entry
    bytes ← wrap reading_source (read_file f.source_path)
    emu ← wrap opening (open_emu lib bytes t.opts.sample_rate)
    started ← wrap starting (start_track lib emu t.track_idx)
    ok (set_fade lib started t.play_ms t.fade_ms)

  -- `renderTrack`
  unfoldable pub render_track : (Bytes → Result Bytes Bytes) → TrackFile → Result RenderError Bytes
  render_track read_file f = do
    emu ← set_up read_file f
    rendered ← render_samples (max_samples f) emu
    ok (encode (fit_samples rendered.1 (expected_samples f)) f.entry.opts)
