-- ===== src/Vfs/Render/Calls/Session.antt =====
-- `renderTrack` of internal/vfs/vfs.go between `gme.Open` and `emu.Close`: its calls to C and what
-- it gives.
use chipfs.Base
use chipfs.Base.{
  ℕ, zero, suc, ◌≡◌, refl, sym, ap, ◌∙◌, ◌⊎◌, inl, inr, List, [], ◌∷◌, ◌++◌, Bool, true, false, not,
  ◌&&◌, ◌==◌, Bool-cases, ltb, if◌then◌else◌, length, replicate, Option, none, some, Option-cases,
  Bytes, Result, ok, err, Result-cases, wrap,
}
use chipfs.Wav.{encode}
use chipfs.Vfs.{fit_samples}
use chipfs.Gme.{Libgme, Emu, start_track, set_fade, play, track_ended}
use chipfs.Vfs.Render.{
  TrackFile, RenderError, starting, render_loop, render_samples, chunk_len, max_samples,
  expected_samples,
}
use chipfs.Vfs.Render.Calls.{
  started, fade_set, end_asked, Traced, ◌>>=◌, close_calls, play_calls, traced_loop, traced_session,
}
use chipfs.Vfs.Render.Calls.Protocol.{Held, fresh, ready, nothing, after, run, run-append}

module _ {E A B : Type 0} where
  bind_ok :
      (m : Traced E A) (f : A → Traced E B) {a : A}
      → m.1 ≡ ok a
      → m >>= f ≡ (m.0 ++ (f a).0, (f a).1)
  bind_ok (calls, ok b) f {a} h = ap (λ (z : A). (calls ++ (f z).0, (f z).1)) (cc h)
  bind_ok (calls, err e) f h = absurd (cc h)

  bind_err : (m : Traced E A) (f : A → Traced E B) {e : E} → m.1 ≡ err e → m >>= f ≡ (m.0, err e)
  bind_err (calls, ok b) f h = absurd (cc h)
  bind_err (calls, err e) f h = cc h

module _ (lib : Libgme) where
  abbrev playing : Held
  playing = record { copied = false; phase = ready }

  play_calls-run : (chunk : List ℕ) → run playing (end_asked ∷ play_calls lib chunk) ≡ some playing
  unfolding play_calls run after
  play_calls-run [] = refl
  play_calls-run (b ∷ chunk) = refl

  traced_loop-run :
      (fuel most : ℕ) (emu : Emu lib.Handle) (chunk samples : List ℕ)
      → run playing (traced_loop lib fuel most emu chunk samples).0 ≡ some playing
  unfolding traced_loop
  traced_loop-run zero most emu chunk samples = unfold run in refl
  traced_loop-run (suc fuel) most emu chunk samples =
      elim (Bool-cases (not (track_ended lib emu) && ltb (length samples) most)) [
        | inr stop ↦ rw (stop, traced_loop) (unfold run after in refl)
        | inl go ↦ elim (Result-cases (play lib emu chunk)) [
          | inl (e, fault) ↦ rw (go, fault, traced_loop) (play_calls-run chunk)
          | inr ((emu', chunk'), made) ↦
              rw (go, made, traced_loop)
                (run-append playing _ _ (play_calls-run chunk)
                  ∙ traced_loop-run fuel most emu' chunk' (samples ++ chunk'))
        ]
      ]

  traced_loop-render_loop :
      (fuel most : ℕ) (emu : Emu lib.Handle) (chunk samples : List ℕ)
      → (traced_loop lib fuel most emu chunk samples).1
        ≡ render_loop lib fuel most emu chunk samples
  unfolding traced_loop render_loop
  traced_loop-render_loop zero most emu chunk samples = refl
  traced_loop-render_loop (suc fuel) most emu chunk samples =
      elim (Bool-cases (not (track_ended lib emu) && ltb (length samples) most)) [
        | inr stop ↦ rw (stop, traced_loop, render_loop) refl
        | inl go ↦ elim (Result-cases (play lib emu chunk)) [
          | inl (e, fault) ↦ rw (go, fault, traced_loop, render_loop) refl
          | inr ((emu', chunk'), made) ↦
              rw (go, made, traced_loop, render_loop)
                (traced_loop-render_loop fuel most emu' chunk' (samples ++ chunk'))
        ]
      ]

  -- An emulator that was opened, with its track started or not
  abbrev IsOpen : Option Held → Type 0
  IsOpen o = (o ≡ some (record { copied = false; phase = fresh })) ⊎ (o ≡ some playing)

  abbrev pub fresh_only : Held
  fresh_only = record { copied = false; phase = fresh }

  module _ (f : TrackFile) (emu : Emu lib.Handle) where
    abbrev loop : Emu lib.Handle → Traced RenderError (Emu lib.Handle × List ℕ)
    loop started_emu =
        traced_loop lib (suc (max_samples f)) (max_samples f)
          (set_fade lib started_emu f.entry.play_ms f.entry.fade_ms) (replicate chunk_len 0) []

    abbrev encoded : Emu lib.Handle × List ℕ → Traced RenderError Bytes
    encoded rendered = ([], ok (encode (fit_samples rendered.1 (expected_samples f)) f.entry.opts))

    pub session_started :
        {started_emu : Emu lib.Handle}
        → start_track lib emu f.entry.track_idx ≡ ok started_emu
        → traced_session lib f emu ≡ (
          started true ∷ fade_set ∷ (loop started_emu >>= encoded).0,
          (loop started_emu >>= encoded).1,
        )
    unfolding traced_session
    session_started made = rw (made, traced_session) refl

    run-started :
        (started_emu : Emu lib.Handle)
        → run fresh_only (started true ∷ fade_set ∷ (loop started_emu >>= encoded).0) ≡ some playing
    unfolding run after
    run-started started_emu = elim (Result-cases (loop started_emu).1) [
      | inl (e, fault) ↦ rw (bind_err (loop started_emu) encoded fault) (traced_loop-run _ _ _ _ _)
      | inr (rendered, ended) ↦
          rw (bind_ok (loop started_emu) encoded ended)
            (run-append playing (loop started_emu).0 [] (traced_loop-run _ _ _ _ _))
    ]

    traced_session-run : IsOpen (run fresh_only (traced_session lib f emu).0)
    traced_session-run = elim (Result-cases (start_track lib emu f.entry.track_idx)) [
      | inl (e, failed) ↦
          unfold traced_session in rw (failed, traced_session) (inl (unfold run after in refl))
      | inr (started_emu, made) ↦ rw (session_started made) (inr (run-started started_emu))
    ]

    abbrev untraced : Emu lib.Handle → Result RenderError (Emu lib.Handle × List ℕ)
    untraced started_emu =
        render_loop lib (suc (max_samples f)) (max_samples f)
          (set_fade lib started_emu f.entry.play_ms f.entry.fade_ms) (replicate chunk_len 0) []

    pub loop_result :
        (started_emu : Emu lib.Handle)
        → (loop started_emu >>= encoded).1
          ≡ Base.◌>>=◌ (untraced started_emu) (λ rendered. (encoded rendered).1)
    loop_result started_emu =
        let same : (loop started_emu).1 ≡ untraced started_emu =
          traced_loop-render_loop _ _ _ _ _ in
        elim (Result-cases (loop started_emu).1) [
          | inl (e, fault) ↦
              let stopped : untraced started_emu ≡ err e = sym same ∙ fault in
              rw (bind_err (loop started_emu) encoded fault, stopped) refl
          | inr (rendered, ended) ↦
              let finished : untraced started_emu ≡ ok rendered = sym same ∙ ended in
              rw (bind_ok (loop started_emu) encoded ended, finished) refl
        ]

    -- The calls of one emulator, from a file that was copied and freed again to the end
    pub session_closed : run fresh_only ((traced_session lib f emu).0 ++ close_calls) ≡ some nothing
    session_closed =
        let calls = (traced_session lib f emu).0 in
        elim traced_session-run [
          | inl fresh_still ↦
              run-append fresh_only calls _ fresh_still ∙ unfold run after close_calls in refl
          | inr started_once ↦
              run-append fresh_only calls _ started_once ∙ unfold run after close_calls in refl
        ]

    -- What `renderTrack` returns once the emulator is open, from the definitions without calls
    abbrev pub session_outcome : Result RenderError Bytes
    session_outcome =
        Base.◌>>=◌
          (Base.◌>>=◌ (wrap starting (start_track lib emu f.entry.track_idx))
            (λ started_emu. ok (set_fade lib started_emu f.entry.play_ms f.entry.fade_ms)))
          (λ faded.
            Base.◌>>=◌ (render_samples lib (max_samples f) faded)
              (λ rendered. ok (encode (fit_samples rendered.1 (expected_samples f)) f.entry.opts)))

    pub session_result : (traced_session lib f emu).1 ≡ session_outcome
    unfolding render_samples
    session_result = elim (Result-cases (start_track lib emu f.entry.track_idx)) [
      | inl (e, failed) ↦ unfold traced_session in rw failed refl
      | inr (started_emu, made) ↦ rw (session_started made, made) (loop_result started_emu)
    ]
