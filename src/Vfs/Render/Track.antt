-- ===== src/Vfs/Render/Track.antt =====
-- `renderTrack` in internal/vfs/vfs.go: the file that it makes is the one that was promised, and
-- it always comes to an end.
use chipfs.Base.{
  ℕ, ◌+◌, ◌≤◌, ◌≡◌, refl, ap, ◌∙◌, ◌⊎◌, inl, inr, List, ◌++◌, true, length, take, arith, Result, ok,
  first_ok, Bytes,
}
use mathlib.Core.Path.{subst}
use chipfs.Wav.{encode, pcm}
use chipfs.Wav.Size.{encode_promise}
use chipfs.Gme.{Libgme, Emu, play, track_ended}
use chipfs.Vfs.{TrackEntry, total_ms, max_play_ms, max_fade_ms, fit_samples}
use chipfs.Vfs.Durations.{length-fit_samples, sample_count_mono, fit_samples-take}
use chipfs.Vfs.Render.{
  TrackFile, new_track_file, set_up, max_samples, expected_samples, render_samples, render_track,
}
use chipfs.Vfs.Render.Loop.{IsRendered, render_samples-IsRendered, render_samples_total}

module _ (lib : Libgme) (read_file : Bytes → Result Bytes Bytes) where
  render_track_parts :
      (f : TrackFile) {w : Bytes}
      → render_track lib read_file f ≡ ok w
      → (emu ended : Emu lib.Handle) × (samples : List ℕ) × (set_up lib read_file f ≡ ok emu)
        × (render_samples lib (max_samples f) emu ≡ ok (ended, samples))
        × (w ≡ encode (fit_samples samples (expected_samples f)) f.entry.opts)
  unfolding render_track
  render_track_parts f {w} h =
      let (emu, ready, h_1) = first_ok (set_up lib read_file f) _ h in
      let (rendered, loop, h_2) = first_ok (render_samples lib (max_samples f) emu) _ h_1 in
      (emu, rendered.0, rendered.1, ready, loop, ground arith)

  module _ (source_path : Bytes) (t : TrackEntry) where
    -- A render of a track whose durations are within the limits has exactly the size that the
    -- directory entry promises, and begins with the header that is served before any render. The
    -- rest is the samples that the loop left, and silence is added only when the emulator has
    -- reported the end of the track.
    pub render_track-new_track_file :
        {w : Bytes}
        → t.play_ms ≤ max_play_ms
        → t.fade_ms ≤ max_fade_ms
        → render_track lib read_file (new_track_file source_path t) ≡ ok w
        → let f = new_track_file source_path t in
          (emu ended : Emu lib.Handle) × (samples : List ℕ) × (set_up lib read_file f ≡ ok emu)
          × (render_samples lib (max_samples f) emu ≡ ok (ended, samples))
          × (length w ≡ f.estimated_size)
          × (w ≡ f.header ++ pcm (fit_samples samples (expected_samples f)))
          × ((track_ended lib ended ≡ true)
              ⊎ (fit_samples samples (expected_samples f) ≡ take (expected_samples f) samples))
    unfolding new_track_file total_ms
    render_track-new_track_file {w} hp hf h =
        let f = new_track_file source_path t in
        let (emu, ended, samples, ready, loop, made) = render_track_parts f h in
        let n = expected_samples f in
        let rendered =
          subst (IsRendered lib (max_samples f)) loop
            (render_samples-IsRendered lib (max_samples f) emu) in
        let (size, layout) =
          encode_promise (t.play_ms + t.fade_ms) (fit_samples samples n) t.opts
            (length-fit_samples samples n) in
        let within : n ≤ max_samples f =
          sample_count_mono (t.play_ms + t.fade_ms) (max_play_ms + max_fade_ms) t.opts
            (omega arith) in
        (
          emu,
          ended,
          samples,
          ready,
          loop,
          ap length made ∙ size,
          made ∙ layout,
          elim rendered.0 [
            | inl over ↦ inl over
            | inr full ↦ inr (fit_samples-take samples n (omega arith))
          ],
        )

  -- With a source that opens and starts, and a library whose `Play` never fails, `renderTrack`
  -- returns a file, even when the library never reports the end of the track.
  pub render_track_total :
      (f : TrackFile) {emu : Emu lib.Handle}
      → set_up lib read_file f ≡ ok emu
      → ((e : Emu lib.Handle) (buf : List ℕ)
          → (p : Emu lib.Handle × List ℕ) × (play lib e buf ≡ ok p))
      → (w : Bytes) × (render_track lib read_file f ≡ ok w)
  unfolding render_track
  render_track_total f {emu} ready plays =
      let (rendered, loop) = render_samples_total lib (max_samples f) plays emu in
      (
        encode (fit_samples rendered.1 (expected_samples f)) f.entry.opts,
        rw (render_track, ready, loop) refl,
      )
