-- ===== src/Vfs/Store/Coherent.antt =====
-- `Read` of internal/vfs/vfs.go never shows a byte that the rendered track has not.
use chipfs.Base.{
  err, ℕ, ◌≤◌, ◌<◌, ◌≡◌, refl, sym, ap, ◌∙◌, ◌⊎◌, inl, inr, List, Option-cases, length, Option,
  none, some, Bytes, Result, ok, arith,
}
use native.Mathlib.Decide.{dec_lt}
use chipfs.Cache
use chipfs.Cache.{Cache, Key, Key-discrete}
use chipfs.Cache.Invariant.{IsValid, get-IsValid, set-IsValid}
use chipfs.Cache.Client.{key, get-get, get-set_self, get-set_ne}
use chipfs.Gme.{Libgme}
use chipfs.Vfs.{slice_at}
use chipfs.Vfs.Render.{RenderError, TrackFile, render_track}
use chipfs.Vfs.Store.{eio, render, render, render_miss, read, serve}

module _ (lib : Libgme) (read_file : Bytes → Result Bytes Bytes) where
  module _ (c : Cache) (f : TrackFile) (dest off : ℕ) where
    abbrev pub looked : Cache
    looked = (Cache.get c f.source_path f.entry.track_idx).0

    pub read_hit :
        {bytes : Bytes}
        → (Cache.get c f.source_path f.entry.track_idx).1 ≡ some bytes
        → read lib read_file c f dest off ≡ (looked, ok (slice_at bytes dest off))
    unfolding read
    read_hit {bytes} h = ground arith

    pub read_header :
        (Cache.get c f.source_path f.entry.track_idx).1 ≡ none
        → off < length f.header
        → read lib read_file c f dest off ≡ (looked, ok (slice_at f.header dest off))
    unfolding read
    read_header h lt = ground arith

    pub read_miss :
        (Cache.get c f.source_path f.entry.track_idx).1 ≡ none
        → length f.header ≤ off
        → read lib read_file c f dest off
          ≡ ((render lib read_file looked f).0, serve dest off (render lib read_file looked f).1)
    unfolding read
    read_miss h le = ground arith

-- What each key should hold: the bytes that its render gives.
module _ (content : List ℕ → ℕ → Option Bytes) where
  -- The cache holds nothing but renders.
  pub record IsCoherent (c : Cache) : Type 0 where
    pub valid : IsValid c
    pub faithful :
        (path : List ℕ) (index : ℕ) (bytes : Bytes)
        → (Cache.get c path index).1 ≡ some bytes
        → content path index ≡ some bytes

  pub get-IsCoherent :
      {c : Cache} (path : List ℕ) (index : ℕ) → IsCoherent c → IsCoherent (Cache.get c path index).0
  get-IsCoherent path index h = record {
    valid = get-IsValid h.valid path index;
    faithful = λ path' index' bytes found.
        h.faithful path' index' bytes (sym (get-get path index h.valid path' index') ∙ found);
  }

  pub set-IsCoherent :
      {c : Cache} (path : List ℕ) (index : ℕ) (bytes : Bytes)
      → content path index ≡ some bytes
      → IsCoherent c
      → IsCoherent (Cache.set c path index bytes)
  set-IsCoherent path index bytes right h = record {
    valid = set-IsValid path index bytes h.valid;
    faithful = λ path' index' bytes' found.
        elim (Key-discrete (key path' index') (key path index)) [
          | yes same ↦ cc (
            ap (λ (k : Key). k.source_path) same,
            ap (λ (k : Key). k.track_index) same,
            get-set_self path index h.valid bytes,
          )
          | no other ↦ elim (get-set_ne path index h.valid bytes path' index' other) [
            | inl kept ↦ h.faithful path' index' bytes' (sym kept ∙ found)
            | inr evicted ↦ cc
          ]
        ];
  }

  module _ (lib : Libgme) (read_file : Bytes → Result Bytes Bytes) where
    render_lem :
        {c : Cache} (f : TrackFile) {w : Bytes}
        → IsCoherent c
        → content f.source_path f.entry.track_idx ≡ some w
        → render_track lib read_file f ≡ ok w
        → IsCoherent (render lib read_file c f).0 × ((render lib read_file c f).1 ≡ ok w)
    unfolding render render_miss
    render_lem {c} f {w} h right made =
        elim (Option-cases (Cache.get c f.source_path f.entry.track_idx).1) [
          | inl miss ↦
              rw (miss, render, made, render_miss)
                (
                  set-IsCoherent f.source_path f.entry.track_idx w right
                      (get-IsCoherent f.source_path f.entry.track_idx h),
                  refl,
                )
          | inr (bytes, hit) ↦
              rw (hit, render)
                (
                  get-IsCoherent f.source_path f.entry.track_idx h,
                  cc (h.faithful f.source_path f.entry.track_idx bytes hit, right),
                )
        ]

    render_failed :
        (c : Cache) (f : TrackFile) {e : RenderError}
        → (Cache.get c f.source_path f.entry.track_idx).1 ≡ none
        → render_track lib read_file f ≡ err e
        → render lib read_file c f ≡ ((Cache.get c f.source_path f.entry.track_idx).0, err e)
    unfolding render render_miss
    render_failed c f miss failed = rw (render, miss, render_miss, failed) refl

    -- Take a cache with nothing but renders in it, and a track whose render succeeds. A read of the
    -- track keeps the cache so, and gives the part of the render that was asked for, or, only for
    -- an offset inside the header, that part of the header.
    pub read-IsCoherent :
        {c : Cache} (f : TrackFile) (dest off : ℕ) {w : Bytes}
        → IsCoherent c
        → content f.source_path f.entry.track_idx ≡ some w
        → render_track lib read_file f ≡ ok w
        → IsCoherent (read lib read_file c f dest off).0
          × (((read lib read_file c f dest off).1 ≡ ok (slice_at w dest off))
              ⊎ ((off < length f.header)
                  × ((read lib read_file c f dest off).1 ≡ ok (slice_at f.header dest off))))
    read-IsCoherent {c} f dest off {w} h right made =
        elim (Option-cases (Cache.get c f.source_path f.entry.track_idx).1) [
          | inr (bytes, hit) ↦
              let same : bytes ≡ w =
                cc (h.faithful f.source_path f.entry.track_idx bytes hit, right) in
              rw (read_hit lib read_file c f dest off hit, same)
                (get-IsCoherent f.source_path f.entry.track_idx h, inl refl)
          | inl miss ↦ elim (dec_lt off (length f.header)) [
            | yes inside ↦
                rw (read_header lib read_file c f dest off miss inside)
                  (get-IsCoherent f.source_path f.entry.track_idx h, inr (inside, refl))
            | no outside ↦
                let (h', served) =
                  render_lem f (get-IsCoherent f.source_path f.entry.track_idx h) right made in
                rw (read_miss lib read_file c f dest off miss (omega arith), served) (h', inl refl)
          ]
        ]

    -- Take a cache with nothing but renders in it, and a track whose render fails. A read of the
    -- track behind its header reports EIO, and leaves a cache with nothing but renders in it.
    pub read-eio :
        {c : Cache} (f : TrackFile) (dest off : ℕ) {e : RenderError}
        → IsCoherent c
        → content f.source_path f.entry.track_idx ≡ none
        → render_track lib read_file f ≡ err e
        → length f.header ≤ off
        → IsCoherent (read lib read_file c f dest off).0
          × ((read lib read_file c f dest off).1 ≡ err eio)
    read-eio {c} f dest off {e} h never failed behind =
        let path = f.source_path in
        let index = f.entry.track_idx in
        let cold : (c' : Cache) → IsCoherent c' → (Cache.get c' path index).1 ≡ none = λ c' h'.
          elim (Option-cases (Cache.get c' path index).1) [
            | inl miss ↦ miss
            | inr (bytes, hit) ↦ absurd (cc (h'.faithful path index bytes hit, never))
          ] in
        let once = get-IsCoherent path index h in
        let made =
          render_failed (Cache.get c path index).0 f (cold (Cache.get c path index).0 once)
            failed in
        rw (read_miss lib read_file c f dest off (cold c h) behind, made)
          (get-IsCoherent path index once, refl)
