-- ===== src/Vfs/Scan/Folder.antt =====
-- One folder of inodes in internal/vfs/vfs.go: what an addition changes and what it keeps.
use chipfs.Base.{
  ◌≡◌, ◌≢◌, refl, sym, ap, ◌∙◌, ◌⊎◌, inl, inr, [], Bool, true, false, Bool-cases, some,
  Option-cases, Bytes,
}
use chipfs.Formats.{equal}
use chipfs.Formats.Slices.{equal_refl, equal_sound}
use chipfs.Vfs.Scan.{Fuse, stem_of, fallback_of, add_chip_dir}

module _ (fuse : Fuse) where
  open fuse use {Inode, child, add_child}

  -- One inode has every child that another has, the same under each name.
  abbrev pub IsWithin : Inode → Inode → Type 0
  IsWithin i j = (x : Bytes) (c : Inode) → child i x ≡ some c → child j x ≡ some c

  pub add_child-IsWithin :
      (i : Inode) (name : Bytes) (d : Inode) → IsWithin i (add_child i name d).0
  add_child-IsWithin i name d x c h = elim (Option-cases (child i name)) [
    | inr (e, taken) ↦ rw (fuse.add_child_taken i name d e taken) h
    | inl free ↦ elim (Bool-cases (equal x name)) [
      | inl same ↦ absurd (cc (h, free, equal_sound x name same))
      | inr other ↦
          fuse.child-add_child_other i name d x
            (λ e. cc (other, ap (λ z. equal z name) e, equal_refl name))
          ∙ h
    ]
  ]

  -- After an addition the name is taken, by the new child or by the one that was there.
  pub add_child-taken :
      (i : Inode) (name : Bytes) (d : Inode)
      → ((child (add_child i name d).0 name ≡ some d) × ((add_child i name d).1 ≡ true))
        ⊎ (((add_child i name d).1 ≡ false) × ((c : Inode) × (child i name ≡ some c)))
  add_child-taken i name d = elim (Option-cases (child i name)) [
    | inl free ↦ let (added, found) = fuse.add_child_free i name d free in inl (found, added)
    | inr (c, taken) ↦
        inr (ap (λ (r : Inode × Bool). r.1) (fuse.add_child_taken i name d c taken), (c, taken))
  ]

  -- Every child after an addition was there before, or is the new one.
  pub add_child-source :
      (i : Inode) (name : Bytes) (d : Inode) (x : Bytes) (c : Inode)
      → child (add_child i name d).0 x ≡ some c
      → (child i x ≡ some c) ⊎ ((x ≡ name) × (c ≡ d))
  add_child-source i name d x c h = elim (Option-cases (child i name)) [
    | inr (e, taken) ↦ inl (rw (fuse.add_child_taken i name d e taken) at h)
    | inl free ↦ elim (Bool-cases (equal x name)) [
      | inl same ↦
          let here = equal_sound x name same in
          inr (here, cc (h, (fuse.add_child_free i name d free).1, here))
      | inr other ↦ inl (
          sym (
            fuse.child-add_child_other i name d x
              (λ e. cc (other, ap (λ z. equal z name) e, equal_refl name)))
          ∙ h)
    ]
  ]

  -- What `addChipDir` leaves: the folder under its stem, or under its fallback while the stem is
  -- empty or taken, or neither while the fallback is taken as well.
  unfoldable pub IsPlaced : Inode → Inode → Bytes → Inode → Type 0
  IsPlaced i j name dir =
      ((stem_of name ≢ []) × (child j (stem_of name) ≡ some dir))
      ⊎ (((stem_of name ≡ []) ⊎ ((c : Inode) × (child i (stem_of name) ≡ some c)))
          × ((child j (fallback_of name) ≡ some dir)
              ⊎ ((c : Inode) × (child i (fallback_of name) ≡ some c))))

  module _ (i : Inode) (name : Bytes) (dir : Inode) where
    by_fallback :
        equal (stem_of name) [] ≡ true
        → add_chip_dir fuse i name dir ≡ (add_child i (fallback_of name) dir).0
    unfolding add_chip_dir
    by_fallback e = rw (add_chip_dir, e) refl

    by_stem :
        equal (stem_of name) [] ≡ false
        → (add_child i (stem_of name) dir).1 ≡ true
        → add_chip_dir fuse i name dir ≡ (add_child i (stem_of name) dir).0
    unfolding add_chip_dir
    by_stem e added = rw (add_chip_dir, e, added) refl

    by_second :
        equal (stem_of name) [] ≡ false
        → (add_child i (stem_of name) dir).1 ≡ false
        → add_chip_dir fuse i name dir ≡ (add_child i (fallback_of name) dir).0
    unfolding add_chip_dir
    by_second e refused = rw (add_chip_dir, e, refused) refl

    -- `addChipDir` is one addition, under the stem or under the fallback.
    add_chip_dir_cases :
        ((stem_of name ≢ [])
          × (add_chip_dir fuse i name dir ≡ (add_child i (stem_of name) dir).0)
          × (child (add_child i (stem_of name) dir).0 (stem_of name) ≡ some dir))
        ⊎ (((stem_of name ≡ []) ⊎ ((c : Inode) × (child i (stem_of name) ≡ some c)))
            × (add_chip_dir fuse i name dir ≡ (add_child i (fallback_of name) dir).0))
    add_chip_dir_cases = elim (Bool-cases (equal (stem_of name) [])) [
      | inl e ↦ inr (inl (equal_sound (stem_of name) [] e), by_fallback e)
      | inr e ↦ elim (add_child-taken i (stem_of name) dir) [
        | inl (found, added) ↦
            inl (λ p. cc (e, ap (λ z. equal z []) p, equal_refl []), by_stem e added, found)
        | inr (refused, taken) ↦ inr (inr taken, by_second e refused)
      ]
    ]

    pub add_chip_dir-IsWithin : IsWithin i (add_chip_dir fuse i name dir)
    add_chip_dir-IsWithin = elim add_chip_dir_cases [
      | inl (_, e, _) ↦ rw e (add_child-IsWithin i (stem_of name) dir)
      | inr (_, e) ↦ rw e (add_child-IsWithin i (fallback_of name) dir)
    ]

    pub add_chip_dir-source :
        (x : Bytes) (c : Inode)
        → child (add_chip_dir fuse i name dir) x ≡ some c
        → (child i x ≡ some c) ⊎ (((x ≡ stem_of name) ⊎ (x ≡ fallback_of name)) × (c ≡ dir))
    add_chip_dir-source x c h = elim add_chip_dir_cases [
      | inl (_, e, _) ↦ elim (add_child-source i (stem_of name) dir x c (rw e at h)) [
        | inl old ↦ inl old
        | inr (at_stem, new) ↦ inr (inl at_stem, new)
      ]
      | inr (_, e) ↦ elim (add_child-source i (fallback_of name) dir x c (rw e at h)) [
        | inl old ↦ inl old
        | inr (at_fallback, new) ↦ inr (inr at_fallback, new)
      ]
    ]

    pub add_chip_dir-IsPlaced : IsPlaced i (add_chip_dir fuse i name dir) name dir
    unfolding IsPlaced
    add_chip_dir-IsPlaced = elim add_chip_dir_cases [
      | inl (some_stem, e, found) ↦ rw e (inl (some_stem, found))
      | inr (no_stem, e) ↦ rw e (
          inr (
            no_stem,
            elim (add_child-taken i (fallback_of name) dir) [
              | inl (found, _) ↦ inl found
              | inr (_, taken) ↦ inr taken
            ],
          ))
    ]
