-- ===== src/Vfs/Store/Reader.antt =====
-- A client that reads a track of internal/vfs/vfs.go from an offset to its end, in buffers of any
-- size, and what a metadata scan costs.
use chipfs.Base.{
  ℕ, zero, suc, ◌+◌, ◌-◌, ◌≤◌, ◌<◌, ◌≡◌, refl, sym, ap, ◌∙◌, inl, inr, List, [], ◌∷◌, ◌++◌, length,
  take, drop, Option, none, some, Bytes, Result, ok, err, arith, length-take, length-drop,
  length-append, Option-cases, drop_all, drop-drop, drop-append_left, take-append-drop-length,
}
use mathlib.Core.List.{append_assoc}
use mathlib.Core.Option
use mathlib.Core.Path.{subst}
use chipfs.Cache
use chipfs.Cache.{Cache}
use chipfs.Gme.{Libgme}
use chipfs.Vfs.{slice_at}
use chipfs.Vfs.Durations.{slice_at_lem}
use chipfs.Vfs.Render.{TrackFile, render_track}
use chipfs.Vfs.Store.{read}
use chipfs.Vfs.Store.Coherent.{IsCoherent, read-IsCoherent, read_hit, read_header}

module _ (lib : Libgme) (read_file : Bytes → Result Bytes Bytes) where
  -- Reads until a read gives nothing. `none` is a failed read, or the fuel that ran out.
  unfoldable pub read_all : ℕ → Cache → TrackFile → ℕ → ℕ → Option Bytes
  read_all zero c f dest off = none
  read_all (suc fuel) c f dest off =
      let (c', result) = read lib read_file c f dest off in
      elim result [
        | err e ↦ none
        | ok [] ↦ some []
        | ok (b ∷ bs) ↦
            Option.map (λ rest. (b ∷ bs) ++ rest) (read_all fuel c' f dest (off + length (b ∷ bs)))
      ]

-- What a read gives is what the file has there: something, unless the end is reached.
abbrev IsPart : Bytes → ℕ → Bytes → Type 0
IsPart w off b = (b ++ drop (off + length b) w ≡ drop off w) × ((b ≡ []) → length w ≤ off)

slice_at-IsPart : (w : Bytes) (dest off : ℕ) → 0 < dest → IsPart w off (slice_at w dest off)
slice_at-IsPart w dest off h =
    let part = drop off w in
    rw slice_at_lem (
      rw drop-drop (take-append-drop-length dest part),
      λ empty. omega (arith, ap length empty, length-take dest part, length-drop off w),
    )

-- A cut of the header is a part of the file that begins with it.
header-IsPart :
    (header rest : Bytes) (dest off : ℕ)
    → 0 < dest
    → off < length header
    → IsPart (header ++ rest) off (slice_at header dest off)
header-IsPart header rest dest off h k =
    let part = drop off header in
    let size = length-take dest part in
    let behind = drop-append_left off header rest (omega arith) in
    rw slice_at_lem (
      rw
          (
            drop-drop,
            behind,
            drop-append_left (length (take dest part)) part rest (omega (arith, size)),
          )
          (sym (append_assoc (take dest part) _ rest)
            ∙ ap (λ (z : Bytes). z ++ rest) (take-append-drop-length dest part)),
      λ empty. absurd (omega (arith, ap length empty, size, length-drop off header)),
    )

module _ (content : List ℕ → ℕ → Option Bytes) (lib : Libgme)
    (read_file : Bytes → Result Bytes Bytes) (f : TrackFile) where
  read-IsPart :
      {c : Cache} {w : Bytes} (rest : Bytes) (dest off : ℕ)
      → content f.source_path f.entry.track_idx ≡ some w
      → render_track lib read_file f ≡ ok w
      → w ≡ f.header ++ rest
      → 0 < dest
      → IsCoherent content c
      → (b : Bytes) × ((read lib read_file c f dest off).1 ≡ ok b) × IsPart w off b
  read-IsPart {c} {w} rest dest off right made front pos h =
      elim (read-IsCoherent content lib read_file f dest off h right made).1 [
        | inl full ↦ (slice_at w dest off, full, slice_at-IsPart w dest off pos)
        | inr (inside, short) ↦ (
          slice_at f.header dest off,
          short,
          subst (λ z. IsPart z off (slice_at f.header dest off)) (sym front)
              (header-IsPart f.header rest dest off pos inside),
        )
      ]

  read_all_end :
      (fuel : ℕ) (c : Cache) (dest off : ℕ)
      → (read lib read_file c f dest off).1 ≡ ok []
      → read_all lib read_file (suc fuel) c f dest off ≡ some []
  unfolding read_all
  read_all_end fuel c dest off h = rw (read_all, h) refl

  read_all_more :
      (fuel : ℕ) (c : Cache) (dest off x : ℕ) (xs : Bytes)
      → (read lib read_file c f dest off).1 ≡ ok (x ∷ xs)
      → read_all lib read_file (suc fuel) c f dest off
        ≡ Option.map
            (λ rest. (x ∷ xs) ++ rest)
            (read_all lib read_file fuel
              (read lib read_file c f dest off).0
              f
              dest
              (off + length (x ∷ xs)))
  unfolding read_all
  read_all_more fuel c dest off x xs h = rw (read_all, h) refl

  -- Take a cache with nothing but renders in it, and a track whose render succeeds and begins with
  -- the track's header. Reading it from an offset until a read gives nothing, with any positive
  -- buffer size and enough fuel for one byte per read, gives the render from that offset on, though
  -- the first reads are served from the header alone.
  pub read_all-drop :
      {w : Bytes} (rest : Bytes) (dest : ℕ)
      → content f.source_path f.entry.track_idx ≡ some w
      → render_track lib read_file f ≡ ok w
      → w ≡ f.header ++ rest
      → 0 < dest
      → (fuel : ℕ) {c : Cache} (off : ℕ) → IsCoherent content c
      → length w - off < fuel
      → read_all lib read_file fuel c f dest off ≡ some (drop off w)
  read_all-drop {w} rest dest right made front pos zero off h enough = absurd (omega arith)
  read_all-drop {w} rest dest right made front pos (suc fuel) {c} off h enough =
      step (read-IsPart rest dest off right made front pos h) (λ n.
        read_all-drop rest dest right made front pos fuel (off + n)
          (read-IsCoherent content lib read_file f dest off h right made).0)
    where
      step :
          ((b : Bytes) × ((read lib read_file c f dest off).1 ≡ ok b) × IsPart w off b)
          → ((n : ℕ)
              → length w - (off + n) < fuel
              → read_all lib read_file fuel (read lib read_file c f dest off).0 f dest (off + n)
                ≡ some (drop (off + n) w))
          → read_all lib read_file (suc fuel) c f dest off ≡ some (drop off w)
      step ([], served, part) later =
          read_all_end fuel c dest off served ∙ ap some (sym (drop_all w off (part.1 refl)))
      step (x ∷ xs, served, part) later =
          read_all_more fuel c dest off x xs served
          ∙ rw
              (later (length (x ∷ xs)) (
                omega (
                  arith,
                  ap length part.0,
                  length-append (x ∷ xs) (drop (off + length (x ∷ xs)) w),
                  length-drop (off + length (x ∷ xs)) w,
                  length-drop off w,
                )))
              (ap some part.0)

module _ (lib lib' : Libgme) (read_file read_file' : Bytes → Result Bytes Bytes) where
  -- A read that starts inside the header depends on no disk and no library: with any others it
  -- gives the same answer and leaves the same cache.
  pub read_header_is_cheap :
      (c : Cache) (f : TrackFile) (dest off : ℕ)
      → off < length f.header
      → read lib read_file c f dest off ≡ read lib' read_file' c f dest off
  read_header_is_cheap c f dest off h =
      elim (Option-cases (Cache.get c f.source_path f.entry.track_idx).1) [
        | inl miss ↦
            read_header lib read_file c f dest off miss h
            ∙ sym (read_header lib' read_file' c f dest off miss h)
        | inr (bytes, hit) ↦
            read_hit lib read_file c f dest off hit
            ∙ sym (read_hit lib' read_file' c f dest off hit)
      ]
