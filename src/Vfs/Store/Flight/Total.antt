-- ===== src/Vfs/Store/Flight/Total.antt =====
-- How often `trackStore.render` renders a track over a whole run of concurrent reads.
use chipfs.Base.{
  ℕ, suc, ◌≤◌, ◌<◌, ◌≡◌, ◌≢◌, refl, sym, ap, ◌∙◌, ◌⊎◌, inl, inr, Bool, true, false, ◌&&◌,
  Bool-cases, if◌then◌else◌, List, Bytes, Result, Result-cases, Option, none, some, Option-cases,
  ℕ_discrete, arith,
}
use chipfs.Cache.{Cache, Key, Key-discrete}
use chipfs.Gme.{Libgme}
use chipfs.Vfs.Render.{render_track}
use chipfs.Vfs.Store.Coherent.{IsCoherent}
use chipfs.Vfs.Store.Flight.{
  Group, Pc, rendering, storing, Request, System, deliver, move, Reach, start, later,
}
use chipfs.Vfs.Store.Flight.Leaders.{leads}
use chipfs.Vfs.Store.Flight.Turns.{next, turn_self, turn_other, deliver_cases, key_of}
use chipfs.Vfs.Store.Flight.Led.{Reach-IsLedBy}
use chipfs.Vfs.Store.Flight.Answers.{IsMade, content_of}
use chipfs.Vfs.Store.Flight.Once.{looked_up, misses, flight_key-cong}
use chipfs.Vfs.Store.Flight.Roomy.{
  track, looked_up-cong, IsRoomy, IsCalm, Reach-IsCalm, turn-looked_up, turn-storing,
}

abbrev is_rendering : Pc → Bool
is_rendering rendering = true
is_rendering _ = false

is_rendering_only : (p : Pc) → is_rendering p ≡ true → p ≡ rendering
is_rendering_only rendering h = refl
is_rendering_only p h = absurd (cc h)

abbrev same_track : Request → Request → Bool
same_track q p = elim (Key-discrete (track q) (track p)) [ yes same ↦ true | no other ↦ false ]

same_track_sound : (q p : Request) → same_track q p ≡ true → track q ≡ track p
same_track_sound q p h = sound (Key-discrete (track q) (track p)) h
  where
    sound :
        (d : Dec (track q ≡ track p))
        → elim d [ yes same ↦ true | no other ↦ false ] ≡ true
        → track q ≡ track p
    sound (yes same) h = same
    sound (no other) h = absurd (cc h)

both_true : (a b : Bool) → (a && b) ≡ true → (a ≡ true) × (b ≡ true)
both_true a b h = ground arith

deliver-storing :
    (p : Pc) (k : Bytes) (q : Request) (bytes : Bytes)
    → deliver p k q (storing bytes) ≡ storing bytes
deliver-storing p k q bytes = elim (deliver_cases p k q (storing bytes)) [
  | inl (kept, _) ↦ kept
  | inr (r, _, waits, _, _) ↦ absurd (cc waits)
]

module _ (group : Group) (lib : Libgme) (read_file : Bytes → Result Bytes Bytes)
    (ask : ℕ → Request) where
  open group use {Calls}

  -- How many steps of a run call `renderTrack` for the track of `q`.
  unfoldable pub renders :
      {n : ℕ} {c : Cache} {k : ℕ} {s : System Calls}
      → Request
      → Reach group lib read_file ask n c k s
      → ℕ
  renders q start = 0
  renders q (later {s} r i lt can) =
      let before : ℕ = renders q r in
      if is_rendering (s.pc i) && same_track (ask i) q then suc before else before

  module _ (content : List ℕ → ℕ → Option Bytes)
      (honest : (i : ℕ)
        → IsMade content lib read_file (ask i) (render_track lib read_file (ask i).file)) where
    content-cong :
        (q p : Request)
        → track q ≡ track p
        → content_of content lib read_file q ≡ content_of content lib read_file p
    content-cong q p same = ap (λ (k : Key). content k.source_path k.track_index) same

    -- A track has not been rendered, or once: then its bytes are in the cache, or about to be.
    abbrev IsOnce : ℕ → Request → System Calls → Type 0
    IsOnce count q s =
        (count ≡ 0)
        ⊎ ((count ≡ 1)
            × ((looked_up s.store.cache q ≢ none)
                ⊎ ((j : ℕ) × (bytes : Bytes) × (s.pc j ≡ storing bytes)
                    × (track q ≡ track (ask j)))))

    module _ {n : ℕ} {c : Cache} {k : ℕ} {s : System Calls}
        (r : Reach group lib read_file ask n c k s) (i : ℕ) (lt : i < n)
        (calm : IsCalm content lib read_file group ask honest n s) (q : Request) where
      -- A render that succeeds is about to be stored.
      render_made :
          {w : Bytes}
          → s.pc i ≡ rendering
          → content_of content lib read_file (ask i) ≡ some w
          → (bytes : Bytes) × ((next group lib read_file ask s i).pc i ≡ storing bytes)
      render_made at made = elim (Result-cases (render_track lib read_file (ask i).file)) [
        | inl (e, failed) ↦ absurd (cc (made, rw failed at (honest i)))
        | inr (bytes, rendered) ↦ (
          bytes,
          turn_self group lib read_file ask s i
              ∙ ap (λ p. (move group lib read_file s.store (ask i) p).1) at
              ∙ unfold move in rw (move, rendered) refl,
        )
      ]

      rendering-IsOnce :
          (count : ℕ) {w : Bytes}
          → s.pc i ≡ rendering
          → track q ≡ track (ask i)
          → content_of content lib read_file q ≡ some w
          → IsOnce count q s
          → IsOnce (suc count) q (next group lib read_file ask s i)
      rendering-IsOnce count at same made once = elim once [
        | inl zero ↦
            let (bytes, stores) = render_made at (sym (content-cong q (ask i) same) ∙ made) in
            inr (ap suc zero, inr (i, bytes, stores, same))
        | inr (one, inl there) ↦
            absurd
              (there (looked_up-cong s.store.cache q (ask i) same ∙ calm.cold.1 i (ap misses at)))
        | inr (one, inr (j, bytes, at_j, same_j)) ↦
            let led = Reach-IsLedBy group lib read_file ask r in
            let e : j ≡ i =
              led.unique j i (ap leads at_j) (ap leads at)
                (flight_key-cong (ask j).file (ask i).file (sym same_j ∙ same)) in
            absurd (cc (at_j, at, ap s.pc e))
      ]

      other-IsOnce :
          (count : ℕ) → IsOnce count q s → IsOnce count q (next group lib read_file ask s i)
      other-IsOnce count once = elim once [
        | inl zero ↦ inl zero
        | inr (one, inl there) ↦ elim (Option-cases (looked_up s.store.cache q)) [
          | inl out ↦ absurd (there out)
          | inr (w, found) ↦
              inr
                (one, inl (turn-looked_up content lib read_file group ask honest i lt calm q found))
        ]
        | inr (one, inr (j, bytes, at_j, same_j)) ↦ elim (ℕ_discrete j i) [
          | yes e ↦ inr (
            one,
            inl (
                turn-storing content lib read_file group ask honest i lt calm q
                  (ap s.pc (sym e) ∙ at_j) (same_j ∙ ap (λ l. track (ask l)) e)),
          )
          | no ne ↦ inr (
            one,
            inr (
              j,
              bytes,
              turn_other group lib read_file ask s i j ne
                  ∙ ap (deliver (s.pc i) (key_of ask i) (ask j)) at_j
                  ∙ deliver-storing (s.pc i) (key_of ask i) (ask j) bytes,
              same_j,
            ),
          )
        ]
      ]

    renders-IsOnce :
        {n : ℕ} {c : Cache} {k : ℕ} {s : System Calls} (q : Request) {w : Bytes}
        → IsCoherent content c
        → IsRoomy content ask n c
        → content_of content lib read_file q ≡ some w
        → (r : Reach group lib read_file ask n c k s) → IsOnce (renders q r) q s
    unfolding renders
    renders-IsOnce q h roomy made start = inl refl
    renders-IsOnce q h roomy made (later {s} r i lt can) =
        let calm = Reach-IsCalm content lib read_file group ask honest h roomy r in
        let once = renders-IsOnce q h roomy made r in
        elim (Bool-cases (is_rendering (s.pc i) && same_track (ask i) q)) [
          | inl yes' ↦
              let (at, same) = both_true (is_rendering (s.pc i)) (same_track (ask i) q) yes' in
              rw yes' (
                rendering-IsOnce r i lt calm q (renders q r) (is_rendering_only (s.pc i) at)
                  (sym (same_track_sound (ask i) q same)) made once)
          | inr no' ↦ rw no' (other-IsOnce r i lt calm q (renders q r) once)
        ]

    -- Let any number of calls of `Read` run at once, in any order of steps, over a cache with
    -- nothing but renders in it and with room for the renders of all the tracks that they ask for.
    -- Then each track whose render succeeds is rendered at most once in the whole run.
    pub renders_once :
        {n : ℕ} {c : Cache} {k : ℕ} {s : System Calls} (q : Request) {w : Bytes}
        → IsCoherent content c
        → IsRoomy content ask n c
        → content q.file.source_path q.file.entry.track_idx ≡ some w
        → (r : Reach group lib read_file ask n c k s) → renders q r ≤ 1
    renders_once q h roomy made r = elim (renders-IsOnce q h roomy made r) [
      | inl zero ↦ omega (arith, zero)
      | inr (one, _) ↦ omega (arith, one)
    ]
