-- ===== src/Vfs/Scan/Recognized.antt =====
-- The first loop of `populate` in internal/vfs/vfs.go: which files get a virtual folder.
use chipfs.Base.{ℕ, ◌≡◌, refl, sym, ap, ◌⊎◌, inl, inr, List, [], ◌++◌, Option, none, some, Bytes}
use chipfs.Vfs.{TrackEntry}
use chipfs.Vfs.Paths.{join}
use chipfs.Vfs.Scan.{
  Fuse, Entries, nil, entry, Kind, directory, regular, special, PendingChip, pending_of,
  is_spc_name, populate,
}
use chipfs.Vfs.Scan.Listing.{Has, shown, added, pending}
use chipfs.Vfs.Scan.Pending.{Among}

module _ (fuse : Fuse) (tracks_of : Bytes → Option (List TrackEntry)) (dir : Bytes) where
  open fuse use {Inode}

  -- The pending chip of a file with tracks
  abbrev pub chip_of : Bytes → Option ℕ → List TrackEntry → PendingChip
  chip_of name mtime tracks = record {
    name = name;
    is_spc = is_spc_name name;
    chip = record { source_path = join dir name; mtime = mtime; tracks = tracks };
  }

  -- A pending chip stands for a regular file in which the parsers find tracks.
  abbrev pub IsRecognized : Entries → PendingChip → Type 0
  IsRecognized es p =
      (n : Bytes) × (m : Option ℕ) × (tracks : List TrackEntry) × Has n m regular es
      × (tracks_of (join dir n) ≡ some tracks)
      × (p ≡ chip_of n m tracks)

  IsRecognized-later :
      (n : Bytes) (m : Option ℕ) (k : Kind) (es : Entries) (p : PendingChip)
      → IsRecognized es p
      → IsRecognized (entry n m k es) p
  IsRecognized-later n m k es p (n', m', tracks, has, found, same) =
      (n', m', tracks, inr has, found, same)

  parsed-Among :
      (n : Bytes) (m : Option ℕ) (t : Option (List TrackEntry)) (others : List PendingChip)
      (p : PendingChip)
      → Among p (pending_of n (join dir n) m t ++ others)
      → ((tracks : List TrackEntry) × (t ≡ some tracks) × (p ≡ chip_of n m tracks)) ⊎ Among p others
  parsed-Among n m none others p h = inr h
  parsed-Among n m (some tracks) others p (inl here) = inl (tracks, refl, here)
  parsed-Among n m (some tracks) others p (inr there) = inr there

  -- What one round keeps
  abbrev kept : Bytes → Option ℕ → Kind → List PendingChip
  kept n m (directory source) = []
  kept n m regular = pending_of n (join dir n) m (tracks_of (join dir n))
  kept n m special = []

  pending_step :
      (parent : Inode) (n : Bytes) (m : Option ℕ) (k : Kind) (es : Entries)
      → pending fuse tracks_of dir parent (entry n m k es)
        ≡ kept n m k
          ++ pending fuse tracks_of dir
              (added fuse tracks_of dir parent n (shown fuse tracks_of dir n m k))
              es
  pending_step parent n m (directory source) es = unfold populate in refl
  pending_step parent n m regular es = unfold populate in refl
  pending_step parent n m special es = unfold populate in refl

  pub pending-IsRecognized :
      (parent : Inode) (es : Entries) (p : PendingChip)
      → Among p (pending fuse tracks_of dir parent es)
      → IsRecognized es p
  pending-IsRecognized parent nil p h = absurd (unfold populate in h)
  pending-IsRecognized parent (entry n m (directory source) es) p h =
      IsRecognized-later n m (directory source) es p (
        pending-IsRecognized
          (added fuse tracks_of dir parent n (shown fuse tracks_of dir n m (directory source))) es p
          (rw (pending_step parent n m (directory source) es) at h))
  pending-IsRecognized parent (entry n m special es) p h =
      IsRecognized-later n m special es p
        (pending-IsRecognized parent es p (rw (pending_step parent n m special es) at h))
  pending-IsRecognized parent (entry n m regular es) p h =
      elim (parsed-Among n m (tracks_of (join dir n)) _ p
        (rw (pending_step parent n m regular es) at h)) [
          | inl (tracks, found, same) ↦ (n, m, tracks, inl (refl, refl, refl), found, same)
          | inr later ↦ IsRecognized-later n m regular es p (
              pending-IsRecognized
                (added fuse tracks_of dir parent n (shown fuse tracks_of dir n m regular)) es p
                later)
        ]

  parsed-found :
      (n : Bytes) (m : Option ℕ) (t : Option (List TrackEntry)) (others : List PendingChip)
      (tracks : List TrackEntry)
      → t ≡ some tracks
      → Among (chip_of n m tracks) (pending_of n (join dir n) m t ++ others)
  parsed-found n m none others tracks e = absurd (cc e)
  parsed-found n m (some ts) others tracks e = inl (ap (chip_of n m) (cc e))

  parsed-later :
      (n : Bytes) (m : Option ℕ) (t : Option (List TrackEntry)) (others : List PendingChip)
      (p : PendingChip)
      → Among p others
      → Among p (pending_of n (join dir n) m t ++ others)
  parsed-later n m none others p h = h
  parsed-later n m (some ts) others p h = inr h

  kept_later :
      (n : Bytes) (m : Option ℕ) (k : Kind) (others : List PendingChip) (p : PendingChip)
      → Among p others
      → Among p (kept n m k ++ others)
  kept_later n m (directory source) others p h = h
  kept_later n m regular others p h = parsed-later n m (tracks_of (join dir n)) others p h
  kept_later n m special others p h = h

  pub pending-found :
      (parent : Inode) (es : Entries) (n : Bytes) (m : Option ℕ) (tracks : List TrackEntry)
      → Has n m regular es
      → tracks_of (join dir n) ≡ some tracks
      → Among (chip_of n m tracks) (pending fuse tracks_of dir parent es)
  pending-found parent nil n m tracks has found = absurd has
  pending-found parent (entry n' m' k es) n m tracks (inr has) found =
      rw (pending_step parent n' m' k es) (
        kept_later n' m' k
          (pending fuse tracks_of dir
            (added fuse tracks_of dir parent n' (shown fuse tracks_of dir n' m' k)) es)
          (chip_of n m tracks)
          (pending-found (added fuse tracks_of dir parent n' (shown fuse tracks_of dir n' m' k)) es
            n m tracks has found))
  pending-found parent (entry n' m' k es) n m tracks (inl (hn, hm, hk)) found =
      rw (sym hk, pending_step parent n' m' regular es, hn, hm)
        (parsed-found n' m' (tracks_of (join dir n'))
          (pending fuse tracks_of dir
            (added fuse tracks_of dir parent n' (shown fuse tracks_of dir n' m' regular)) es)
          tracks (rw (sym hn) found))
