-- ===== src/Vfs/Store/Flight/Roomy.antt =====
-- Concurrent calls of `TrackFile.Read` over a cache that has room for all their tracks: nothing that
-- is in the cache is evicted.
use chipfs.Base.{
  ℕ, ◌+◌, ◌≤◌, ◌<◌, ◌≡◌, ◌≢◌, sym, ap, ◌∙◌, inl, inr, List, length, Bytes, Result, Option, none,
  some, arith,
}
use chipfs.Cache
use chipfs.Cache.{Cache, Key, Key-discrete, Entry}
use chipfs.Cache.Invariant.{IsValid}
use chipfs.Cache.Spec.{lookup, without, bytes_total}
use chipfs.Cache.Refines.{view}
use chipfs.Cache.Client.{key, get-get, get-set_self, lookup-without}
use chipfs.Cache.Roomy.{
  bytes_total-without, bytes_total-get, set-max_bytes, get-max_bytes, view-set, get-set_roomy,
}
use chipfs.Vfs.Store.Coherent.{IsCoherent}
use chipfs.Gme.{Libgme}
use chipfs.Vfs.Render.{render_track}
use chipfs.Vfs.Store.Flight.{Group, storing, Request, System, turn, move, Reach, start, later}
use chipfs.Vfs.Store.Flight.Turns.{next, turn-store}
use chipfs.Vfs.Store.Flight.Answers.{IsMade, content_of, IsRight, Reach-IsRight}
use chipfs.Vfs.Store.Flight.Once.{looked_up, misses, IsCold, Reach-IsCold, move-cache}

abbrev pub track : Request → Key
track q = key q.file.source_path q.file.entry.track_idx

-- What is looked up depends on the track alone.
pub looked_up-cong : (c : Cache) (q p : Request) → track q ≡ track p → looked_up c q ≡ looked_up c p
looked_up-cong c q p same = ap (λ (k : Key). (Cache.get c k.source_path k.track_index).1) same

-- The cache has room for the renders of the tracks that the first `n` readers ask for and that it
-- does not hold.
pub record IsRoomy (content : List ℕ → ℕ → Option Bytes) (ask : ℕ → Request) (n : ℕ) (c : Cache)
    : Type 0 where
  pub missing : List Entry
  pub room : bytes_total missing + bytes_total (view c) ≤ c.max_bytes
  pub listed :
      (j : ℕ) (w : Bytes)
      → j < n
      → content (ask j).file.source_path (ask j).file.entry.track_idx ≡ some w
      → looked_up c (ask j) ≡ none
      → lookup (track (ask j)) missing ≡ some w

module _ (content : List ℕ → ℕ → Option Bytes) (ask : ℕ → Request) {n : ℕ} {c : Cache}
    (v : IsValid c) (roomy : IsRoomy content ask n c) where
  get-IsRoomy :
      (q : Request)
      → IsRoomy content ask n (Cache.get c q.file.source_path q.file.entry.track_idx).0
  get-IsRoomy q =
      let path = q.file.source_path in
      let index = q.file.entry.track_idx in
      record {
        missing = roomy.missing;
        room = omega (arith, roomy.room, bytes_total-get path index v, get-max_bytes c path index);
        listed = λ j w lt made out. roomy.listed j w lt made (
            sym (get-get path index v (ask j).file.source_path (ask j).file.entry.track_idx) ∙ out);
      }

  -- A render of a track that is not there.
  module _ (i : ℕ) (bytes : Bytes) (lt : i < n)
      (made : content (ask i).file.source_path (ask i).file.entry.track_idx ≡ some bytes)
      (absent : looked_up c (ask i) ≡ none) where
    abbrev path : Bytes
    path = (ask i).file.source_path

    abbrev index : ℕ
    index = (ask i).file.entry.track_idx

    fits :
        bytes_total roomy.missing
        ≡ length bytes + bytes_total (without (track (ask i)) roomy.missing)
    fits = bytes_total-without (track (ask i)) roomy.missing (roomy.listed i bytes lt made absent)

    room_for_bytes : length bytes + bytes_total (view c) ≤ c.max_bytes
    room_for_bytes = omega (arith, roomy.room, fits)

    pub looked_up-set_roomy :
        (q : Request)
        → track q ≢ track (ask i)
        → looked_up (Cache.set c path index bytes) q ≡ looked_up c q
    looked_up-set_roomy q other =
        get-set_roomy path index v bytes absent room_for_bytes q.file.source_path
          q.file.entry.track_idx other

    pub looked_up-set_self :
        (q : Request)
        → track q ≡ track (ask i)
        → looked_up (Cache.set c path index bytes) q ≡ some bytes
    looked_up-set_self q same =
        looked_up-cong (Cache.set c path index bytes) q (ask i) same
        ∙ get-set_self path index v bytes

    set-IsRoomy : IsRoomy content ask n (Cache.set c path index bytes)
    set-IsRoomy = record {
      missing = without (track (ask i)) roomy.missing;
      room = omega (
        arith,
        roomy.room,
        fits,
        ap bytes_total (view-set path index v bytes absent room_for_bytes),
        set-max_bytes path index bytes v,
      );
      listed = λ j w lt' made' out. elim (Key-discrete (track (ask j)) (track (ask i))) [
        | yes same ↦ absurd (cc (out, looked_up-set_self (ask j) same))
        | no other ↦
            lookup-without (track (ask j)) (track (ask i)) roomy.missing other
            ∙ roomy.listed j w lt' made' (sym (looked_up-set_roomy (ask j) other) ∙ out)
      ];
    }

module _ (content : List ℕ → ℕ → Option Bytes) (lib : Libgme)
    (read_file : Bytes → Result Bytes Bytes) (group : Group) (ask : ℕ → Request)
    (honest : (i : ℕ)
      → IsMade content lib read_file (ask i) (render_track lib read_file (ask i).file)) where
  open group use {Calls}

  -- What is known at any time of a store that has room.
  pub record IsCalm (n : ℕ) (s : System Calls) : Type 0 where
    pub right : IsRight content lib read_file group ask honest s
    pub cold : IsCold group lib read_file ask s
    pub roomy : IsRoomy content ask n s.store.cache

  module _ {n : ℕ} {s : System Calls} (i : ℕ) (lt : i < n) (calm : IsCalm n s) where
    stored_made :
        {bytes : Bytes}
        → s.pc i ≡ storing bytes
        → content_of content lib read_file (ask i) ≡ some bytes
    stored_made at = rw at at (calm.right.1 i)

    stored_absent :
        {bytes : Bytes} → s.pc i ≡ storing bytes → looked_up s.store.cache (ask i) ≡ none
    stored_absent at = calm.cold.1 i (ap misses at)

    turn-IsRoomy : IsRoomy content ask n (next group lib read_file ask s i).store.cache
    turn-IsRoomy =
        rw (turn-store group lib read_file ask s i)
          (elim (move-cache group lib read_file s.store (ask i) (s.pc i)) [
            | inl kept ↦ rw kept calm.roomy
            | inr (inl looked) ↦ rw looked (get-IsRoomy content ask calm.cold.0 calm.roomy (ask i))
            | inr (inr (bytes, at, stored)) ↦ rw stored (
                set-IsRoomy content ask calm.cold.0 calm.roomy i bytes lt (stored_made at)
                  (stored_absent at))
          ])

    -- A track that is in the cache stays there.
    pub turn-looked_up :
        (q : Request) {w : Bytes}
        → looked_up s.store.cache q ≡ some w
        → looked_up (next group lib read_file ask s i).store.cache q ≢ none
    turn-looked_up q {w} there =
        rw (turn-store group lib read_file ask s i)
          (elim (move-cache group lib read_file s.store (ask i) (s.pc i)) [
            | inl kept ↦ rw kept (λ out. cc (out, there))
            | inr (inl looked) ↦ rw looked (λ out. cc (
              get-get (ask i).file.source_path (ask i).file.entry.track_idx calm.cold.0
                  q.file.source_path q.file.entry.track_idx,
              out,
              there,
            ))
            | inr (inr (bytes, at, stored)) ↦
                let made = stored_made at in
                let absent = stored_absent at in
                rw stored (elim (Key-discrete (track q) (track (ask i))) [
                  | yes same ↦ λ out. cc (
                    looked_up-set_self content ask calm.cold.0 calm.roomy i bytes lt made absent q
                        same,
                    out,
                  )
                  | no other ↦ λ out. cc (
                    looked_up-set_roomy content ask calm.cold.0 calm.roomy i bytes lt made absent q
                        other,
                    out,
                    there,
                  )
                ])
          ])

    -- A render is in the cache once it is stored.
    pub turn-storing :
        (q : Request) {bytes : Bytes}
        → s.pc i ≡ storing bytes
        → track q ≡ track (ask i)
        → looked_up (next group lib read_file ask s i).store.cache q ≢ none
    unfolding turn move
    turn-storing q {bytes} at same = rw at (λ out. cc (
      looked_up-set_self content ask calm.cold.0 calm.roomy i bytes lt (stored_made at)
          (stored_absent at) q same,
      out,
    ))

  pub Reach-IsCalm :
      {n : ℕ} {c : Cache} {k : ℕ} {s : System Calls}
      → IsCoherent content c
      → IsRoomy content ask n c
      → Reach group lib read_file ask n c k s
      → IsCalm n s
  Reach-IsCalm {n} {c} h roomy run = record {
    right = Reach-IsRight content lib read_file group ask honest h run;
    cold = Reach-IsCold group lib read_file ask h.valid run;
    roomy = stays_roomy run;
  }
    where
      stays_roomy :
          {k : ℕ} {s : System Calls}
          → Reach group lib read_file ask n c k s
          → IsRoomy content ask n s.store.cache
      stays_roomy start = roomy
      stays_roomy (later {s} r i lt can) = turn-IsRoomy i lt (record {
        right = Reach-IsRight content lib read_file group ask honest h r;
        cold = Reach-IsCold group lib read_file ask h.valid r;
        roomy = stays_roomy r;
      })
