-- ===== src/Vfs/Render/Loop.antt =====
-- The loop of `renderTrack` in internal/vfs/vfs.go: it ends, and what it leaves behind.
use chipfs.Base.{
  Result-cases, ℕ, zero, suc, ◌+◌, ◌≤◌, ◌<◌, ◌≡◌, ◌≢◌, refl, ◌∙◌, ◌⊎◌, inl, inr, List, [], ◌++◌,
  Bool, true, false, not, ◌&&◌, ltb, ltb→lt, Bool-cases, length, replicate, length-append,
  length-replicate, arith, Result, ok, err,
}
use mathlib.Core.Path.{subst}
use chipfs.Gme
use chipfs.Gme.{Libgme, Emu, play, track_ended, length-play}
use chipfs.Vfs.Render.{RenderError, rendering, out_of_fuel, render_loop, render_samples, chunk_len}

module _ (lib : Libgme) (max_samples : ℕ) where
  abbrev goes_on : Emu lib.Handle → List ℕ → Bool
  goes_on emu all_samples = not (track_ended lib emu) && ltb (length all_samples) max_samples

  loop_stop :
      (fuel : ℕ) (emu : Emu lib.Handle) (chunk all_samples : List ℕ)
      → goes_on emu all_samples ≡ false
      → render_loop lib (suc fuel) max_samples emu chunk all_samples ≡ ok (emu, all_samples)
  unfolding render_loop
  loop_stop fuel emu chunk all_samples h = rw h refl

  loop_fault :
      (fuel : ℕ) (emu : Emu lib.Handle) (chunk all_samples : List ℕ) {e : Gme.Error}
      → goes_on emu all_samples ≡ true
      → play lib emu chunk ≡ err e
      → render_loop lib (suc fuel) max_samples emu chunk all_samples ≡ err (rendering e)
  unfolding render_loop
  loop_fault fuel emu chunk all_samples h p = rw (h, p) refl

  loop_round :
      (fuel : ℕ) (emu : Emu lib.Handle) (chunk all_samples : List ℕ) {emu' : Emu lib.Handle}
      {chunk' : List ℕ}
      → goes_on emu all_samples ≡ true
      → play lib emu chunk ≡ ok (emu', chunk')
      → render_loop lib (suc fuel) max_samples emu chunk all_samples
        ≡ render_loop lib fuel max_samples emu' chunk' (all_samples ++ chunk')
  unfolding render_loop
  loop_round fuel emu chunk all_samples h p = rw (h, p) refl

  -- What is known of a result of the loop.
  abbrev pub IsRendered : Result RenderError (Emu lib.Handle × List ℕ) → Type 0
  IsRendered (ok (emu, samples)) =
      ((track_ended lib emu ≡ true) ⊎ (max_samples ≤ length samples))
      × (length samples < max_samples + chunk_len)
  IsRendered (err e) = e ≢ out_of_fuel

  render_loop-IsRendered :
      (fuel : ℕ) (emu : Emu lib.Handle) (chunk all_samples : List ℕ)
      → length chunk ≡ chunk_len
      → max_samples ≤ fuel + length all_samples
      → length all_samples < max_samples + chunk_len
      → IsRendered (render_loop lib (suc fuel) max_samples emu chunk all_samples)
  render_loop-IsRendered zero emu chunk all_samples c h b =
      rw (loop_stop zero emu chunk all_samples (ground arith)) (ground arith, b)
  render_loop-IsRendered (suc fuel) emu chunk all_samples c h b =
      elim (Bool-cases (goes_on emu all_samples)) [
        | inr stop ↦ rw (loop_stop (suc fuel) emu chunk all_samples stop) (ground arith, b)
        | inl go ↦ elim (Result-cases (play lib emu chunk)) [
          | inl (e, fault) ↦ rw (loop_fault (suc fuel) emu chunk all_samples go fault) (λ p. cc)
          | inr ((emu', chunk'), played) ↦
              let same = length-play lib emu chunk played in
              let more = length-append all_samples chunk' in
              let below = ltb→lt (length all_samples) max_samples (ground arith) in
              rw (loop_round (suc fuel) emu chunk all_samples go played) (
                render_loop-IsRendered fuel emu' chunk' (all_samples ++ chunk') (same ∙ c)
                  (omega (arith, more)) (omega (arith, more, below)))
        ]
      ]

  -- The loop ends by itself, whatever the library does: `max_samples + 1` rounds are enough. When
  -- it leaves samples, the emulator reports the end of the track or `max_samples` are reached, and
  -- the limit is passed by less than one chunk.
  pub render_samples-IsRendered :
      (emu : Emu lib.Handle) → IsRendered (render_samples lib max_samples emu)
  unfolding render_samples
  render_samples-IsRendered emu =
      render_loop-IsRendered max_samples emu (replicate chunk_len 0) []
        (length-replicate {A = ℕ} chunk_len 0) (omega arith) (omega arith)

module _ (lib : Libgme) (max_samples : ℕ)
    (plays : (e : Emu lib.Handle) (buf : List ℕ)
      → (p : Emu lib.Handle × List ℕ) × (play lib e buf ≡ ok p)) where
  -- With a library that never faults, only the fuel could stop the loop.
  abbrev OnlyFuel : Result RenderError (Emu lib.Handle × List ℕ) → Type 0
  OnlyFuel (ok r) = Unit
  OnlyFuel (err e) = e ≡ out_of_fuel

  render_loop-OnlyFuel :
      (fuel : ℕ) (emu : Emu lib.Handle) (chunk all_samples : List ℕ)
      → OnlyFuel (render_loop lib fuel max_samples emu chunk all_samples)
  render_loop-OnlyFuel zero emu chunk all_samples = unfold render_loop in refl
  render_loop-OnlyFuel (suc fuel) emu chunk all_samples =
      elim (Bool-cases (goes_on lib max_samples emu all_samples)) [
        | inr stop ↦ rw (loop_stop lib max_samples fuel emu chunk all_samples stop) tt
        | inl go ↦
            let ((emu', chunk'), played) = plays emu chunk in
            rw (loop_round lib max_samples fuel emu chunk all_samples go played)
              (render_loop-OnlyFuel fuel emu' chunk' (all_samples ++ chunk'))
      ]

  pub render_samples_total :
      (emu : Emu lib.Handle)
      → (r : Emu lib.Handle × List ℕ) × (render_samples lib max_samples emu ≡ ok r)
  render_samples_total emu = elim (Result-cases (render_samples lib max_samples emu)) [
    | inr found ↦ found
    | inl (e, failed) ↦
        let some_fuel =
          subst (IsRendered lib max_samples) failed
            (render_samples-IsRendered lib max_samples emu) in
        let no_fault = subst OnlyFuel failed (
          unfold render_samples in
          render_loop-OnlyFuel (suc max_samples) emu (replicate chunk_len 0) []) in
        absurd (some_fuel no_fault)
  ]
