-- ===== src/Vfs/Store/Flight/Turns.antt =====
-- One step of a reader of internal/vfs/vfs.go, as the group of calls sees it.
use chipfs.Base.{
  ℕ, ◌≡◌, ◌≢◌, refl, sym, ap, ◌∙◌, ◌⊎◌, inl, inr, true, false, Bool-cases, Bytes, Result,
  Result-cases, Option-cases, arith, ltb, length,
}
use chipfs.Cache
use chipfs.Cache.{Cache}
use chipfs.Gme.{Libgme}
use chipfs.Formats.{equal}
use chipfs.Formats.Slices.{equal_refl, equal_sound}
use chipfs.Vfs.Render.{RenderError, render_track}
use chipfs.Vfs.Store.{serve}
use chipfs.Vfs.Store.Flight.{
  Group, Pc, called, joining, waiting, looking, rendering, storing, done, returned, TrackStore,
  Request, System, flight_key, deliver, can_move, move, turn,
}
use chipfs.Vfs.Store.Flight.Leaders.{leads, parks}

-- What `deliver` leaves: a reader that waits for the call that ends returns, the others stay.
pub deliver_cases :
    (p : Pc) (k : Bytes) (q : Request) (x : Pc)
    → ((deliver p k q x ≡ x)
        × ((r : Result RenderError Bytes) → p ≡ done r → x ≡ waiting → flight_key q.file ≢ k))
      ⊎ ((r : Result RenderError Bytes) × (p ≡ done r)
          × (x ≡ waiting)
          × (k ≡ flight_key q.file)
          × (deliver p k q x ≡ returned (serve q.dest q.off r)))
unfolding deliver
deliver_cases (done r) k q waiting = elim (Bool-cases (equal k (flight_key q.file))) [
  | inl same ↦ inr (r, refl, refl, equal_sound _ _ same, rw same refl)
  | inr other ↦ inl (rw other refl, λ _ _ _ e. cc (other, equal_refl k, e))
]
deliver_cases p k q x = inl (refl, λ r e w. cc)

pub leads-deliver : (p : Pc) (k : Bytes) (q : Request) (x : Pc) → leads (deliver p k q x) ≡ leads x
leads-deliver p k q x = elim (deliver_cases p k q x) [
  | inl (kept, _) ↦ ap leads kept
  | inr (r, _, waits, _, answered) ↦ ap leads answered ∙ sym (ap leads waits)
]

parks→waiting : (p : Pc) → parks p ≡ true → p ≡ waiting
parks→waiting waiting h = refl
parks→waiting p h = absurd (cc h)

pub parks-deliver :
    (p : Pc) (k : Bytes) (q : Request) (x : Pc)
    → parks (deliver p k q x) ≡ true
    → (parks x ≡ true) × ((r : Result RenderError Bytes) → p ≡ done r → flight_key q.file ≢ k)
parks-deliver p k q x h = elim (deliver_cases p k q x) [
  | inl (kept, other) ↦
      let was = sym (ap parks kept) ∙ h in (was, λ r e. other r e (parks→waiting x was))
  | inr (r, _, waits, _, answered) ↦ absurd (cc (h, ap parks answered))
]

abbrev pub key_of : (ℕ → Request) → ℕ → Bytes
key_of ask i = flight_key (ask i).file

module _ (group : Group) (lib : Libgme) (read_file : Bytes → Result Bytes Bytes) where
  open group use {Calls, busy, begin, finish, busy-idle}

  -- What a step of a reader that can move does to the group.
  pub data Effect (s : TrackStore Calls) (q : Request) (p : Pc) (s' : TrackStore Calls) (p' : Pc)
      : Type 0 where
    stays :
        s'.calls ≡ s.calls
        → leads p' ≡ leads p
        → parks p' ≡ false
        → ((r : Result RenderError Bytes) → p ≢ done r)
        → Effect s q p s' p'
    begins :
        busy s.calls (flight_key q.file) ≡ false
        → s'.calls ≡ begin s.calls (flight_key q.file)
        → p ≡ joining
        → p' ≡ looking
        → Effect s q p s' p'
    waits :
        busy s.calls (flight_key q.file) ≡ true
        → s'.calls ≡ s.calls
        → p ≡ joining
        → p' ≡ waiting
        → Effect s q p s' p'
    ends :
        (r : Result RenderError Bytes)
        → p ≡ done r
        → s'.calls ≡ finish s.calls (flight_key q.file)
        → p' ≡ returned (serve q.dest q.off r)
        → Effect s q p s' p'

  pub move-Effect :
      (s : TrackStore Calls) (q : Request) (p : Pc)
      → can_move p ≡ true
      → Effect s q p (move group lib read_file s q p).0 (move group lib read_file s q p).1
  unfolding move
  move-Effect s q called can =
      elim (Option-cases (Cache.get s.cache q.file.source_path q.file.entry.track_idx).1) [
        | inr (bytes, hit) ↦ rw (hit, move) (stays refl refl refl (λ r e. cc))
        | inl miss ↦ elim (Bool-cases (ltb q.off (length q.file.header))) [
          | inl inside ↦ rw (miss, inside, move) (stays refl refl refl (λ r e. cc))
          | inr behind ↦ rw (miss, behind, move) (stays refl refl refl (λ r e. cc))
        ]
      ]
  move-Effect s q joining can = elim (Bool-cases (busy s.calls (flight_key q.file))) [
    | inl taken ↦ rw (taken, move) (waits taken refl refl refl)
    | inr free ↦ rw (free, move) (begins free refl refl refl)
  ]
  move-Effect s q waiting can = absurd (cc can)
  move-Effect s q looking can =
      elim (Option-cases (Cache.get s.cache q.file.source_path q.file.entry.track_idx).1) [
        | inr (bytes, hit) ↦ rw (hit, move) (stays refl refl refl (λ r e. cc))
        | inl miss ↦ rw (miss, move) (stays refl refl refl (λ r e. cc))
      ]
  move-Effect s q rendering can = elim (Result-cases (render_track lib read_file q.file)) [
    | inl (e, failed) ↦ rw (failed, move) (stays refl refl refl (λ r e. cc))
    | inr (bytes, made) ↦ rw (made, move) (stays refl refl refl (λ r e. cc))
  ]
  move-Effect s q (storing bytes) can = stays refl refl refl (λ r e. cc)
  move-Effect s q (done r) can = ends r refl refl refl
  move-Effect s q (returned r) can = absurd (cc can)

  module _ (ask : ℕ → Request) where
    abbrev pub moved : System Calls → ℕ → TrackStore Calls × Pc
    moved s i = move group lib read_file s.store (ask i) (s.pc i)

    abbrev pub next : System Calls → ℕ → System Calls
    next s i = turn group lib read_file ask s i

    module _ (s : System Calls) (i : ℕ) where
      pub turn-store : (next s i).store ≡ (moved s i).0
      unfolding turn
      turn-store = refl

      pub turn_self : (next s i).pc i ≡ (moved s i).1
      unfolding turn
      turn_self = ground arith

      pub turn_other :
          (j : ℕ) → j ≢ i → (next s i).pc j ≡ deliver (s.pc i) (key_of ask i) (ask j) (s.pc j)
      unfolding turn
      turn_other j ne = ground arith
