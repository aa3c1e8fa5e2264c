-- ===== src/Vfs/Scan/Pending.antt =====
-- The second loop of `populate` in internal/vfs/vfs.go: the virtual folders among the children.
use chipfs.Base.{◌≡◌, ◌≢◌, refl, ◌⊎◌, inl, inr, List, [], ◌∷◌, some, Bytes}
use chipfs.Vfs.Scan.{
  Fuse, PendingChip, stem_of, fallback_of, add_chip_dir, add_pending, chip_inode, with_album_artist,
}
use chipfs.Vfs.Scan.Folder.{
  IsWithin, IsPlaced, add_chip_dir-IsWithin, add_chip_dir-source, add_chip_dir-IsPlaced,
}

-- Membership, by equality
abbrev pub Among : {A : Type 0} → A → List A → Type 0
Among a [] = ⊥
Among a (b ∷ l) = (a ≡ b) ⊎ Among a l

module _ (fuse : Fuse) (artist : Bytes) where
  open fuse use {Inode, child}

  -- The inode of a pending chip, with the album artist of its directory
  abbrev pub folder_of : PendingChip → Inode
  folder_of p = chip_inode fuse (with_album_artist artist p)

  pending_step :
      (i : Inode) (p : PendingChip) (ps : List PendingChip)
      → add_pending fuse artist i (p ∷ ps)
        ≡ add_pending fuse artist (add_chip_dir fuse i p.name (folder_of p)) ps
  unfolding add_pending
  pending_step i p ps = refl

  pub add_pending-IsWithin :
      (i : Inode) (ps : List PendingChip) → IsWithin fuse i (add_pending fuse artist i ps)
  add_pending-IsWithin i [] x c h = unfold add_pending in h
  add_pending-IsWithin i (p ∷ ps) x c h = rw (pending_step i p ps) (
      add_pending-IsWithin (add_chip_dir fuse i p.name (folder_of p)) ps x c
        (add_chip_dir-IsWithin fuse i p.name (folder_of p) x c h))

  -- A name of the folder of a pending chip
  abbrev pub IsNameOf : Bytes → PendingChip → Type 0
  IsNameOf x p = (x ≡ stem_of p.name) ⊎ (x ≡ fallback_of p.name)

  pub add_pending-source :
      (i : Inode) (ps : List PendingChip) (x : Bytes) (c : Inode)
      → child (add_pending fuse artist i ps) x ≡ some c
      → (child i x ≡ some c) ⊎ ((p : PendingChip) × Among p ps × IsNameOf x p × (c ≡ folder_of p))
  add_pending-source i [] x c h = inl (unfold add_pending in h)
  add_pending-source i (p ∷ ps) x c h =
      elim (add_pending-source (add_chip_dir fuse i p.name (folder_of p)) ps x c
        (rw (pending_step i p ps) at h)) [
          | inr (q, among, named, same) ↦ inr (q, inr among, named, same)
          | inl early ↦ elim (add_chip_dir-source fuse i p.name (folder_of p) x c early) [
            | inl old ↦ inl old
            | inr (named, same) ↦ inr (p, inl refl, named, same)
          ]
        ]

  -- Where the folder of a pending chip is in the end: under its stem, or under its fallback while
  -- the stem is empty or taken; it is left out only while both names are taken.
  abbrev pub IsTaken : Inode → Bytes → Type 0
  IsTaken j x = (c : Inode) × (child j x ≡ some c)

  abbrev pub IsListed : Inode → PendingChip → Type 0
  IsListed j p =
      ((stem_of p.name ≢ []) × (child j (stem_of p.name) ≡ some (folder_of p)))
      ⊎ (((stem_of p.name ≡ []) ⊎ IsTaken j (stem_of p.name))
          × ((child j (fallback_of p.name) ≡ some (folder_of p)) ⊎ IsTaken j (fallback_of p.name)))

  IsTaken-later : (i j : Inode) (x : Bytes) → IsWithin fuse i j → IsTaken i x → IsTaken j x
  IsTaken-later i j x w (c, h) = (c, w x c h)

  placed_later :
      (i j k : Inode) (p : PendingChip)
      → IsPlaced fuse i j p.name (folder_of p)
      → IsWithin fuse i j
      → IsWithin fuse j k
      → IsListed k p
  unfolding IsPlaced
  placed_later i j k p (inl (some_stem, found)) w v = inl (some_stem, v _ _ found)
  placed_later i j k p (inr (inl no_stem, inl found)) w v = inr (inl no_stem, inl (v _ _ found))
  placed_later i j k p (inr (inl no_stem, inr (c, h))) w v =
      inr (inl no_stem, inr (c, v _ _ (w _ _ h)))
  placed_later i j k p (inr (inr (d, g), inl found)) w v =
      inr (inr (d, v _ _ (w _ _ g)), inl (v _ _ found))
  placed_later i j k p (inr (inr (d, g), inr (c, h))) w v =
      inr (inr (d, v _ _ (w _ _ g)), inr (c, v _ _ (w _ _ h)))

  pub add_pending-IsListed :
      (i : Inode) (ps : List PendingChip) (p : PendingChip)
      → Among p ps
      → IsListed (add_pending fuse artist i ps) p
  add_pending-IsListed i [] p h = absurd h
  add_pending-IsListed i (q ∷ ps) p (inl here) =
      let dir = folder_of q in
      let j = add_chip_dir fuse i q.name dir in
      rw (here, pending_step i q ps)
        (placed_later i j (add_pending fuse artist j ps) q (add_chip_dir-IsPlaced fuse i q.name dir)
          (add_chip_dir-IsWithin fuse i q.name dir) (add_pending-IsWithin j ps))
  add_pending-IsListed i (q ∷ ps) p (inr there) =
      rw (pending_step i q ps)
        (add_pending-IsListed (add_chip_dir fuse i q.name (folder_of q)) ps p there)
