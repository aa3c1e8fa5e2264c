-- ===== src/Vfs/Store/Flight/Answers.antt =====
-- What concurrent calls of `TrackFile.Read` return, and what they leave in the cache.
use chipfs.Base.{
  ℕ, ◌<◌, ◌≡◌, refl, ap, ◌⊎◌, inl, inr, List, Bool-cases, Bytes, Result, Result-cases, ok, err,
  Option, none, some, Option-cases, ltb, ltb→lt, length, ℕ_discrete,
}
use chipfs.Cache
use chipfs.Cache.{Cache}
use chipfs.Gme.{Libgme}
use chipfs.Vfs.{slice_at}
use chipfs.Vfs.Render.{RenderError, render_track}
use chipfs.Vfs.Store.{Errno, serve}
use chipfs.Vfs.Store.Coherent.{IsCoherent, get-IsCoherent, set-IsCoherent}
use chipfs.Vfs.Store.Flight.{
  Group, Pc, called, joining, waiting, looking, rendering, storing, done, returned, TrackStore,
  Request, System, flight_key, deliver, move, Reach, start, later,
}
use chipfs.Vfs.Store.Flight.Turns.{next, turn-store, turn_self, turn_other, deliver_cases}
use chipfs.Vfs.Store.Flight.Keys.{flight_key_injective}

module _ (content : List ℕ → ℕ → Option Bytes) (lib : Libgme)
    (read_file : Bytes → Result Bytes Bytes) where
  abbrev pub content_of : Request → Option Bytes
  content_of q = content q.file.source_path q.file.entry.track_idx

  -- The result of a render agrees with `content`.
  abbrev pub IsMade : Request → Result RenderError Bytes → Type 0
  IsMade q (ok w) = content_of q ≡ some w
  IsMade q (err e) = content_of q ≡ none

  -- The answer to a read: the part of the render that it asks for, EIO if the render fails, or,
  -- only for an offset inside the header, that part of the header.
  abbrev pub IsAnswer : Request → Result Errno Bytes → Type 0
  IsAnswer q r =
      (r ≡ serve q.dest q.off (render_track lib read_file q.file))
      ⊎ ((q.off < length q.file.header) × (r ≡ ok (slice_at q.file.header q.dest q.off)))

  abbrev pub Fits : Request → Pc → Type 0
  Fits q (storing bytes) = IsMade q (ok bytes)
  Fits q (done r) = IsMade q r
  Fits q (returned r) = IsAnswer q r
  Fits q _ = Unit

  serve_made :
      (q : Request) (r t : Result RenderError Bytes)
      → IsMade q r
      → IsMade q t
      → serve q.dest q.off r ≡ serve q.dest q.off t
  serve_made q (ok w) (ok v) h m =
      let same : w ≡ v = cc (h, m) in ap (λ b. ok (slice_at b q.dest q.off)) same
  serve_made q (ok w) (err e) h m = absurd (cc (h, m))
  serve_made q (err e) (ok v) h m = absurd (cc (h, m))
  serve_made q (err e) (err d) h m = refl

  module _ (q : Request) (honest : IsMade q (render_track lib read_file q.file)) where
    answered : (r : Result RenderError Bytes) → IsMade q r → IsAnswer q (serve q.dest q.off r)
    answered r h = inl (serve_made q r (render_track lib read_file q.file) h honest)

    Fits-deliver :
        (other : Request) (p x : Pc)
        → Fits other p
        → Fits q x
        → Fits q (deliver p (flight_key other.file) q x)
    Fits-deliver other p x hp hx = elim (deliver_cases p (flight_key other.file) q x) [
      | inl (kept, _) ↦ rw kept hx
      | inr (r, at, _, same, now) ↦
          let (path, index) = flight_key_injective other.file q.file same in
          rw now (answered r (moves r path index (rw at at hp)))
    ]
      where
        moves :
            (r : Result RenderError Bytes)
            → other.file.source_path ≡ q.file.source_path
            → other.file.entry.track_idx ≡ q.file.entry.track_idx
            → IsMade other r
            → IsMade q r
        moves (ok w) path index h = rw (path, index) at h
        moves (err e) path index h = rw (path, index) at h

    module _ (group : Group) where
      open group use {Calls, busy}

      Fits-move :
          (s : TrackStore Calls) (p : Pc)
          → IsCoherent content s.cache
          → Fits q p
          → IsCoherent content (move group lib read_file s q p).0.cache
            × Fits q (move group lib read_file s q p).1
      unfolding move
      Fits-move s called h fit =
          let path = q.file.source_path in
          let index = q.file.entry.track_idx in
          elim (Option-cases (Cache.get s.cache path index).1) [
            | inr (bytes, hit) ↦
                rw (hit, move)
                  (
                    get-IsCoherent content path index h,
                    answered (ok bytes) (h.faithful path index bytes hit),
                  )
            | inl miss ↦ elim (Bool-cases (ltb q.off (length q.file.header))) [
              | inl inside ↦
                  rw (miss, inside, move)
                    (get-IsCoherent content path index h, inr (ltb→lt _ _ inside, refl))
              | inr behind ↦ rw (miss, behind, move) (get-IsCoherent content path index h, tt)
            ]
          ]
      Fits-move s joining h fit = elim (Bool-cases (busy s.calls (flight_key q.file))) [
        | inl taken ↦ rw (taken, move) (h, tt)
        | inr free ↦ rw (free, move) (h, tt)
      ]
      Fits-move s waiting h fit = (h, tt)
      Fits-move s looking h fit =
          let path = q.file.source_path in
          let index = q.file.entry.track_idx in
          elim (Option-cases (Cache.get s.cache path index).1) [
            | inr (bytes, hit) ↦
                rw (hit, move)
                  (get-IsCoherent content path index h, h.faithful path index bytes hit)
            | inl miss ↦ rw (miss, move) (get-IsCoherent content path index h, tt)
          ]
      Fits-move s rendering h fit = elim (Result-cases (render_track lib read_file q.file)) [
        | inl (e, failed) ↦ rw (failed, move) (h, rw failed at honest)
        | inr (bytes, made) ↦ rw (made, move) (h, rw made at honest)
      ]
      Fits-move s (storing bytes) h fit =
          (set-IsCoherent content q.file.source_path q.file.entry.track_idx bytes fit h, fit)
      Fits-move s (done r) h fit = (h, answered r fit)
      Fits-move s (returned r) h fit = (h, fit)

  module _ (group : Group) (ask : ℕ → Request)
      (honest : (i : ℕ) → IsMade (ask i) (render_track lib read_file (ask i).file)) where
    open group use {Calls}

    abbrev pub IsRight : System Calls → Type 0
    IsRight s = IsCoherent content s.store.cache × ((i : ℕ) → Fits (ask i) (s.pc i))

    turn-IsRight :
        (s : System Calls) (i : ℕ) → IsRight s → IsRight (next group lib read_file ask s i)
    turn-IsRight s i h =
        let (coherent, mine) = Fits-move (ask i) (honest i) group s.store (s.pc i) h.0 (h.1 i) in
        (
          rw (turn-store group lib read_file ask s i) coherent,
          λ j. elim (ℕ_discrete j i) [
            | yes e ↦ rw (e, turn_self group lib read_file ask s i) mine
            | no ne ↦
                rw (turn_other group lib read_file ask s i j ne)
                  (Fits-deliver (ask j) (honest j) (ask i) (s.pc i) (s.pc j) (h.1 i) (h.1 j))
          ],
        )

    pub Reach-IsRight :
        {n : ℕ} {c : Cache} {k : ℕ} {s : System Calls}
        → IsCoherent content c
        → Reach group lib read_file ask n c k s
        → IsRight s
    Reach-IsRight h start = (h, λ i. tt)
    Reach-IsRight h (later {s} r i lt can) = turn-IsRight s i (Reach-IsRight h r)

    -- Take a cache with nothing but renders in it, and let any number of calls of `Read` run at
    -- once, in any order of steps; `content` is what the renders of their files give. At any time
    -- the cache has nothing but renders in it, and a call that has returned gave the part of its
    -- own track's render that was asked for, EIO if the render fails, or, only for an offset inside
    -- the header, that part of the header.
    pub reads_answered :
        {n : ℕ} {c : Cache} {k : ℕ} {s : System Calls} {i : ℕ} {r : Result Errno Bytes}
        → IsCoherent content c
        → Reach group lib read_file ask n c k s
        → s.pc i ≡ returned r
        → IsCoherent content s.store.cache × IsAnswer (ask i) r
    reads_answered {i} h run at =
        let (coherent, fits) = Reach-IsRight h run in (coherent, rw at at (fits i))
