-- ===== src/Vfs/Store/Flight.antt =====
-- internal/vfs/vfs.go: calls of `TrackFile.Read` that run at once. `trackStore.render` coalesces
-- the renders of a track by singleflight, which is not part of the repository: it is an
-- interface, whose laws say which keys have a call in flight. A step of one reader ends at its
-- next use of the cache, which its mutex makes atomic, of the group, or at the end of the render.
pub mod Leaders
pub mod Turns
pub mod Led
pub mod Finish
pub mod Keys
pub mod Answers
pub mod Once
pub mod Roomy
pub mod Total
pub mod Table
mod Tests
mod Samples
use chipfs.Base.{
  ℕ, zero, suc, ◌<◌, ◌≡◌, ◌≢◌, Bool, true, false, ◌++◌, ◌∷◌, ◌==◌, ltb, if◌then◌else◌, length, itoa,
  Option, none, some, Bytes, Result, ok, err,
}
use chipfs.Cache
use chipfs.Cache.{Cache}
use chipfs.Formats.{equal}
use chipfs.Gme.{Libgme}
use chipfs.Vfs.{slice_at}
use chipfs.Vfs.Render.{TrackFile, RenderError, render_track}
use chipfs.Vfs.Store.{Errno, serve}

-- The calls in flight of a `singleflight.Group`, by key.
pub record Group : Type 1 where
  pub Calls : Type 0
  pub idle : Calls
  pub busy : Calls → Bytes → Bool
  pub begin : Calls → Bytes → Calls
  pub finish : Calls → Bytes → Calls
  pub busy-idle : (key : Bytes) → busy idle key ≡ false
  pub busy-begin : (c : Calls) (key : Bytes) → busy (begin c key) key ≡ true
  pub busy-begin_ne :
      (c : Calls) (key other : Bytes) → other ≢ key → busy (begin c key) other ≡ busy c other
  pub busy-finish : (c : Calls) (key : Bytes) → busy (finish c key) key ≡ false
  pub busy-finish_ne :
      (c : Calls) (key other : Bytes) → other ≢ key → busy (finish c key) other ≡ busy c other

-- `trackStore`
pub record TrackStore (Calls : Type 0) : Type 0 where
  pub cache : Cache
  pub calls : Calls

-- One call of `Read`: the file, the length of the buffer and the offset.
pub record Request : Type 0 where
  pub file : TrackFile
  pub dest : ℕ
  pub off : ℕ

-- Where a reader stands, with the local variables that are live there.
pub data Pc : Type 0 where
  called : Pc  -- the start of `Read`
  joining : Pc  -- before `Do`
  waiting : Pc  -- in `Do`, while another reader's call is in flight
  looking : Pc  -- the start of the closure
  rendering : Pc  -- before `renderTrack`
  storing : Bytes → Pc  -- before `Set`
  done : Result RenderError Bytes → Pc  -- the end of the closure
  returned : Result Errno Bytes → Pc

-- `key` in `trackStore.render`
unfoldable pub flight_key : TrackFile → Bytes
flight_key f = f.source_path ++ 0 ∷ itoa f.entry.track_idx

-- `Do` gives the result of a call to every reader that waits for its key.
unfoldable pub deliver : Pc → Bytes → Request → Pc → Pc
deliver (done r) key q waiting =
    if equal key (flight_key q.file) then returned (serve q.dest q.off r) else waiting
deliver _ key q p = p

-- Neither in `Do` behind another reader nor at the end
abbrev pub can_move : Pc → Bool
can_move waiting = false
can_move (returned _) = false
can_move _ = true

pub record System (Calls : Type 0) : Type 0 where
  pub store : TrackStore Calls
  pub pc : ℕ → Pc

module _ (group : Group) (lib : Libgme) (read_file : Bytes → Result Bytes Bytes) where
  open group use {Calls, idle, busy, begin, finish}

  -- One step of `Read`, with `trackStore.render` and its closure.
  unfoldable pub move : TrackStore Calls → Request → Pc → TrackStore Calls × Pc
  move s q called =
      let (c, found) = Cache.get s.cache q.file.source_path q.file.entry.track_idx in
      elim found [
        | some bytes ↦ (record s { cache = c }, returned (ok (slice_at bytes q.dest q.off)))
        | none ↦ (
          record s { cache = c },
          if ltb q.off (length q.file.header)
              then returned (ok (slice_at q.file.header q.dest q.off))
              else joining,
        )
      ]
  move s q joining =
      if busy s.calls (flight_key q.file)
      then (s, waiting)
      else (record s { calls = begin s.calls (flight_key q.file) }, looking)
  move s q waiting = (s, waiting)
  move s q looking =
      let (c, found) = Cache.get s.cache q.file.source_path q.file.entry.track_idx in
      (record s { cache = c }, elim found [ some bytes ↦ done (ok bytes) | none ↦ rendering ])
  move s q rendering = (
    s,
    elim (render_track lib read_file q.file) [ ok bytes ↦ storing bytes | err e ↦ done (err e) ],
  )
  move s q (storing bytes) = (
    record s { cache = Cache.set s.cache q.file.source_path q.file.entry.track_idx bytes },
    done (ok bytes),
  )
  move s q (done r) =
      (record s { calls = finish s.calls (flight_key q.file) }, returned (serve q.dest q.off r))
  move s q (returned r) = (s, returned r)

  module _ (ask : ℕ → Request) where
    -- A step of the reader `i`, whose request is `ask i`.
    unfoldable pub turn : System Calls → ℕ → System Calls
    turn s i =
        let (store, p) = move s.store (ask i) (s.pc i) in
        record {
          store = store;
          pc = λ j.
              if j == i then p else deliver (s.pc i) (flight_key (ask i).file) (ask j) (s.pc j);
        }

    abbrev pub started : Cache → System Calls
    started c = record { store = record { cache = c; calls = idle }; pc = λ _. called }

    -- The states that the first `n` readers reach in `k` steps, from a store with the cache `c`.
    pub data Reach (n : ℕ) (c : Cache) : ℕ → System Calls → Type 0 where
      start : Reach n c 0 (started c)
      later :
          {k : ℕ} {s : System Calls}
          → Reach n c k s
          → (i : ℕ) → i < n
          → can_move (s.pc i) ≡ true
          → Reach n c (suc k) (turn s i)
