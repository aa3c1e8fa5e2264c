-- ===== src/Vfs/Store.antt =====
-- internal/vfs/vfs.go: the track store and `TrackFile.Read`. The store's state is its cache; one
-- call is one step, with no other call in between.
pub mod Coherent
pub mod Flight
pub mod Reader
use chipfs.Base.{
  ℕ, zero, suc, ◌+◌, List, [], ◌∷◌, ◌++◌, ltb, if◌then◌else◌, length, Option, none, some, Bytes,
  Result, ok, err,
}
use chipfs.Cache
use chipfs.Cache.{Cache}
use chipfs.Gme.{Libgme}
use chipfs.Vfs.{slice_at}
use chipfs.Vfs.Render.{TrackFile, RenderError, render_track}

-- `syscall.EIO`
pub data Errno : Type 0 where
  eio : Errno

-- The end of `Read`, once a render has returned.
abbrev pub serve : ℕ → ℕ → Result RenderError Bytes → Result Errno Bytes
serve dest off (ok bytes) = ok (slice_at bytes dest off)
serve dest off (err e) = err eio

module _ (lib : Libgme) (read_file : Bytes → Result Bytes Bytes) where
  -- The rest of the closure in `trackStore.render`, when the second look at the cache misses.
  unfoldable pub render_miss : Cache → TrackFile → Cache × Result RenderError Bytes
  render_miss c f = elim (render_track lib read_file f) [
    | err e ↦ (c, err e)
    | ok bytes ↦ (Cache.set c f.source_path f.entry.track_idx bytes, ok bytes)
  ]

  -- `trackStore.render`, where no other reader is in flight: `Do` runs the closure.
  unfoldable pub render : Cache → TrackFile → Cache × Result RenderError Bytes
  unfolding render_miss
  render c f =
      let (c', found) = Cache.get c f.source_path f.entry.track_idx in
      elim found [ some bytes ↦ (c', ok bytes) | none ↦ render_miss c' f ]

  -- `Read`, for a buffer of `dest` bytes at the offset `off`.
  unfoldable pub read : Cache → TrackFile → ℕ → ℕ → Cache × Result Errno Bytes
  unfolding render
  read c f dest off =
      let (c', found) = Cache.get c f.source_path f.entry.track_idx in
      elim found [
        | some bytes ↦ (c', ok (slice_at bytes dest off))
        | none ↦
            if ltb off (length f.header)
            then (c', ok (slice_at f.header dest off))
            else (let (c'', result) = render c' f in (c'', serve dest off result))
      ]
