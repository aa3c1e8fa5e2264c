-- ===== src/Vfs/Render/Calls/Closed.antt =====
-- `renderTrack` of internal/vfs/vfs.go as a whole: what C holds at its end, and its result.
use chipfs.Base.{◌≡◌, refl, inl, inr, ◌==◌, Bool-cases, some, Bytes, Result, Result-cases, wrap}
use chipfs.Gme.{Libgme, open_emu}
use chipfs.Vfs.Render.{TrackFile, opening, render_track, set_up}
use chipfs.Vfs.Render.Calls.{
  ◌>>=◌, then_always, open_calls, close_calls, traced_session, traced_render,
}
use chipfs.Vfs.Render.Calls.Protocol.{nothing, after, run}
use chipfs.Vfs.Render.Calls.Session.{session_closed, session_result}

module _ (lib : Libgme) (read_file : Bytes → Result Bytes Bytes) (f : TrackFile) where
  -- The calls that `Open` makes, and those of the emulator that it gives, if any
  open_run :
      (bytes : Bytes)
      → run nothing
          ((
            open_calls lib bytes f.entry.opts.sample_rate,
            wrap opening (open_emu lib bytes f.entry.opts.sample_rate),
          )
            >>= λ emu. then_always (traced_session lib f emu) close_calls).0
        ≡ some nothing
  unfolding open_calls open_emu
  open_run bytes = elim (Bool-cases (f.entry.opts.sample_rate == 0)) [
    | inl invalid ↦ rw (invalid, open_emu) (unfold run in refl)
    | inr valid ↦ elim (Result-cases (lib.gme_open_data bytes f.entry.opts.sample_rate)) [
      | inl (e, failed) ↦ rw (valid, failed, open_emu) (unfold run after in refl)
      | inr (handle, made) ↦ rw (valid, made, open_emu) (unfold run after in session_closed lib f _)
    ]
  ]

  render_calls-run : run nothing (traced_render lib read_file f).0 ≡ some nothing
  unfolding traced_render
  render_calls-run = elim (Result-cases (read_file f.source_path)) [
    | inl (e, failed) ↦ rw failed (unfold run in refl)
    | inr (bytes, made) ↦ rw made (open_run bytes)
  ]

  render_calls-render_track : (traced_render lib read_file f).1 ≡ render_track lib read_file f
  unfolding traced_render render_track set_up open_emu
  render_calls-render_track = elim (Result-cases (read_file f.source_path)) [
    | inl (e, failed) ↦ rw failed refl
    | inr (bytes, found) ↦ elim (Bool-cases (f.entry.opts.sample_rate == 0)) [
      | inl invalid ↦ rw (found, invalid) refl
      | inr valid ↦ elim (Result-cases (lib.gme_open_data bytes f.entry.opts.sample_rate)) [
        | inl (e, failed) ↦ rw (found, valid, failed) refl
        | inr (handle, made) ↦ rw (found, valid, made) (session_result lib f _)
      ]
    ]
  ]

  -- In every render C is called in an allowed order that leaves nothing behind: the copy of the
  -- file is freed, an emulator that was opened is closed once and not used before its track is
  -- started or after it is closed, whichever step fails. The result is `render_track`'s.
  pub traced_render-render_track :
      (run nothing (traced_render lib read_file f).0 ≡ some nothing)
      × ((traced_render lib read_file f).1 ≡ render_track lib read_file f)
  traced_render-render_track = (render_calls-run, render_calls-render_track)
