-- ===== src/Vfs/Store/Flight/Once.antt =====
-- `trackStore.render` renders a track at most once at a time, and not while the cache has it.
use chipfs.Base.{
  ℕ, ◌≡◌, ◌≢◌, refl, sym, ap, ◌∙◌, ◌⊎◌, inl, inr, Bool, true, false, Bool-cases, Bytes, Result,
  Option, none, Option-cases, ltb, length, ℕ_discrete, ◌++◌, ◌∷◌, itoa,
}
use mathlib.Core.Path.{ap₂}
use chipfs.Cache
use chipfs.Cache.{Cache, Key}
use chipfs.Cache.Invariant.{IsValid, get-IsValid, set-IsValid}
use chipfs.Cache.Client.{key, get-get, get-set_ne}
use chipfs.Gme.{Libgme}
use chipfs.Vfs.Render.{TrackFile}
use chipfs.Vfs.Store.Flight.{
  Group, Pc, called, joining, waiting, looking, rendering, storing, done, returned, TrackStore,
  Request, System, flight_key, deliver, move, Reach, start, later,
}
use chipfs.Vfs.Store.Flight.Leaders.{leads}
use chipfs.Vfs.Store.Flight.Turns.{next, turn-store, turn_self, turn_other, deliver_cases, key_of}
use chipfs.Vfs.Store.Flight.Led.{IsLedBy, Reach-IsLedBy}

-- What `Get` finds for a track
abbrev pub looked_up : Cache → Request → Option Bytes
looked_up c q = (Cache.get c q.file.source_path q.file.entry.track_idx).1

-- Between the second miss and `Set`
abbrev pub misses : Pc → Bool
misses rendering = true
misses (storing _) = true
misses _ = false

misses-leads : (p : Pc) → misses p ≡ true → leads p ≡ true
misses-leads rendering h = refl
misses-leads (storing b) h = refl
misses-leads p h = absurd (cc h)

misses-deliver : (p : Pc) (k : Bytes) (q : Request) (x : Pc) → misses (deliver p k q x) ≡ misses x
misses-deliver p k q x = elim (deliver_cases p k q x) [
  | inl (kept, _) ↦ ap misses kept
  | inr (r, _, waits, _, now) ↦ ap misses now ∙ sym (ap misses waits)
]

pub flight_key-cong :
    (f g : TrackFile)
    → key f.source_path f.entry.track_idx ≡ key g.source_path g.entry.track_idx
    → flight_key f ≡ flight_key g
unfolding flight_key
flight_key-cong f g same = ap (λ (k : Key). k.source_path ++ 0 ∷ itoa k.track_index) same

module _ (group : Group) (lib : Libgme) (read_file : Bytes → Result Bytes Bytes) where
  open group use {Calls, busy}

  -- What a step does to the cache: nothing, a `Get` of its track or, behind a render, its `Set`.
  pub move-cache :
      (s : TrackStore Calls) (q : Request) (p : Pc)
      → let c = (move group lib read_file s q p).0.cache in
        (c ≡ s.cache)
        ⊎ (c ≡ (Cache.get s.cache q.file.source_path q.file.entry.track_idx).0)
        ⊎ ((bytes : Bytes) × (p ≡ storing bytes)
            × (c ≡ Cache.set s.cache q.file.source_path q.file.entry.track_idx bytes))
  unfolding move
  move-cache s q called = elim (Option-cases (looked_up s.cache q)) [
    | inr (bytes, hit) ↦ rw (hit, move) (inr (inl refl))
    | inl miss ↦ rw (miss, move) (inr (inl refl))
  ]
  move-cache s q joining = elim (Bool-cases (busy s.calls (flight_key q.file))) [
    | inl taken ↦ rw (taken, move) (inl refl)
    | inr free ↦ rw (free, move) (inl refl)
  ]
  move-cache s q waiting = inl refl
  move-cache s q looking = inr (inl refl)
  move-cache s q rendering = inl refl
  move-cache s q (storing bytes) = inr (inr (bytes, refl, refl))
  move-cache s q (done r) = inl refl
  move-cache s q (returned r) = inl refl

  move-IsValid :
      (s : TrackStore Calls) (q : Request) (p : Pc)
      → IsValid s.cache
      → IsValid (move group lib read_file s q p).0.cache
  move-IsValid s q p v = elim (move-cache s q p) [
    | inl kept ↦ rw kept v
    | inr (inl looked) ↦ rw looked (get-IsValid v q.file.source_path q.file.entry.track_idx)
    | inr (inr (bytes, _, stored)) ↦
        rw stored (set-IsValid q.file.source_path q.file.entry.track_idx bytes v)
  ]

  -- A track that is not in the cache stays out, unless the reader leads a call for it.
  move-looked_up :
      (s : TrackStore Calls) (q other : Request) (p : Pc)
      → IsValid s.cache
      → looked_up s.cache other ≡ none
      → (leads p ≡ true → flight_key other.file ≢ flight_key q.file)
      → looked_up (move group lib read_file s q p).0.cache other ≡ none
  move-looked_up s q other p v out apart = elim (move-cache s q p) [
    | inl kept ↦ rw kept out
    | inr (inl looked) ↦ rw looked (
        get-get q.file.source_path q.file.entry.track_idx v other.file.source_path
          other.file.entry.track_idx
        ∙ out)
    | inr (inr (bytes, at, stored)) ↦
        elim (get-set_ne q.file.source_path q.file.entry.track_idx v bytes other.file.source_path
          other.file.entry.track_idx
          (λ same. apart (ap leads at) (flight_key-cong other.file q.file same))) [
            | inl same ↦ rw stored (same ∙ out)
            | inr gone ↦ rw stored gone
          ]
  ]

  move-misses :
      (s : TrackStore Calls) (q : Request) (p : Pc)
      → IsValid s.cache
      → (misses p ≡ true → looked_up s.cache q ≡ none)
      → misses (move group lib read_file s q p).1 ≡ true
      → looked_up (move group lib read_file s q p).0.cache q ≡ none
  unfolding move
  move-misses s q called v out m = elim (Option-cases (looked_up s.cache q)) [
    | inr (bytes, hit) ↦ absurd (cc (rw (hit, move) at m))
    | inl miss ↦ elim (Bool-cases (ltb q.off (length q.file.header))) [
      | inl inside ↦ absurd (cc (rw (miss, inside, move) at m))
      | inr behind ↦ absurd (cc (rw (miss, behind, move) at m))
    ]
  ]
  move-misses s q joining v out m = elim (Bool-cases (busy s.calls (flight_key q.file))) [
    | inl taken ↦ absurd (cc (rw (taken, move) at m))
    | inr free ↦ absurd (cc (rw (free, move) at m))
  ]
  move-misses s q looking v out m = elim (Option-cases (looked_up s.cache q)) [
    | inr (bytes, hit) ↦ absurd (cc (rw (hit, move) at m))
    | inl miss ↦
        let path = q.file.source_path in
        let index = q.file.entry.track_idx in get-get path index v path index ∙ miss
  ]
  move-misses s q rendering v out m = out refl
  move-misses s q p v out m = absurd (cc m)

  module _ (ask : ℕ → Request) where
    -- The tracks that are rendered are not in the cache.
    abbrev pub IsCold : System Calls → Type 0
    IsCold s =
        IsValid s.store.cache
        × ((i : ℕ) → misses (s.pc i) ≡ true → looked_up s.store.cache (ask i) ≡ none)

    turn-IsCold :
        {n : ℕ} (s : System Calls) (i : ℕ)
        → IsLedBy group lib read_file ask n s
        → IsCold s
        → IsCold (next group lib read_file ask s i)
    turn-IsCold s i led h = rw (turn-store group lib read_file ask s i) (
      move-IsValid s.store (ask i) (s.pc i) h.0,
      λ j m. elim (ℕ_discrete j i) [
        | yes e ↦ rw e (
            move-misses s.store (ask i) (s.pc i) h.0 (h.1 i)
              (sym (ap misses (turn_self group lib read_file ask s i)) ∙ rw e at m))
        | no ne ↦
            let was : misses (s.pc j) ≡ true =
              sym (misses-deliver (s.pc i) (key_of ask i) (ask j) (s.pc j))
              ∙ sym (ap misses (turn_other group lib read_file ask s i j ne))
              ∙ m in
            move-looked_up s.store (ask i) (ask j) (s.pc i) h.0 (h.1 j was)
              (λ leading same. ne (led.unique j i (misses-leads (s.pc j) was) leading same))
      ],
    )

    pub Reach-IsCold :
        {n : ℕ} {c : Cache} {k : ℕ} {s : System Calls}
        → IsValid c
        → Reach group lib read_file ask n c k s
        → IsCold s
    Reach-IsCold v start = (v, λ i. cc)
    Reach-IsCold v (later {s} r i lt can) =
        turn-IsCold s i (Reach-IsLedBy group lib read_file ask r) (Reach-IsCold v r)

    -- Let any number of calls of `Read` run at once over a valid cache, in any order of steps. When
    -- one of them is about to render its track, the cache has no bytes for it, and no other call
    -- that asks for the same track is in the closure: none renders it, nor is about to store it.
    pub render_once :
        {n : ℕ} {c : Cache} {k : ℕ} {s : System Calls} {i j : ℕ}
        → IsValid c
        → Reach group lib read_file ask n c k s
        → s.pc i ≡ rendering
        → leads (s.pc j) ≡ true
        → (ask j).file.source_path ≡ (ask i).file.source_path
        → (ask j).file.entry.track_idx ≡ (ask i).file.entry.track_idx
        → (looked_up s.store.cache (ask i) ≡ none) × (j ≡ i)
    render_once {i} {j} v r at leading path index =
        let led = Reach-IsLedBy group lib read_file ask r in
        (
          (Reach-IsCold v r).1 i (ap misses at),
          led.unique j i leading (ap leads at)
              (flight_key-cong (ask j).file (ask i).file (ap₂ key path index)),
        )
