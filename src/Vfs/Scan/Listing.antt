-- ===== src/Vfs/Scan/Listing.antt =====
-- `populate` in internal/vfs/vfs.go: which children a folder of the mount has.
use chipfs.Base.{
  ℕ, ◌≡◌, refl, sym, ap, ◌∙◌, ◌⊎◌, inl, inr, List, Option, none, some, Option-cases, Bytes,
}
use mathlib.Core.Path.{subst}
use chipfs.Vfs.{TrackEntry}
use chipfs.Vfs.Nodes.{source_dir, real_file}
use chipfs.Vfs.Paths.{join}
use chipfs.Vfs.Scan
use chipfs.Vfs.Scan.{
  Fuse, Source, unreadable, entries, Entries, nil, entry, Kind, directory, regular, special,
  PendingChip, pending_of, spc_artists, is_spc_name, populate, add_pending,
}
use chipfs.Vfs.Scan.Folder.{IsWithin, add_child-IsWithin, add_child-source}

-- A directory has an entry.
abbrev pub Has : Bytes → Option ℕ → Kind → Entries → Type 0
Has name mtime kind nil = ⊥
Has name mtime kind (entry n m k es) =
    ((name ≡ n) × (mtime ≡ m) × (kind ≡ k)) ⊎ Has name mtime kind es

-- The names of a directory are different.
abbrev pub IsDistinct : Entries → Type 0
IsDistinct nil = Unit
IsDistinct (entry n m k es) = ((m' : Option ℕ) (k' : Kind) → Has n m' k' es → ⊥) × IsDistinct es

module _ (fuse : Fuse) (tracks_of : Bytes → Option (List TrackEntry)) (dir : Bytes) where
  open fuse use {Inode, inode, child, add_child}

  -- The two results of the first loop
  abbrev pub reals : Inode → Entries → Inode
  reals parent es = (Scan.add_entries fuse tracks_of parent dir es).0

  abbrev pub pending : Inode → Entries → List PendingChip
  pending parent es = (Scan.add_entries fuse tracks_of parent dir es).1

  -- The inode of a real entry: a passthrough file, or a folder that is populated in the same way.
  abbrev pub shown : Bytes → Option ℕ → Kind → Option Inode
  shown name mtime (directory source) =
      some (populate fuse tracks_of (inode (source_dir mtime)) (join dir name) source)
  shown name mtime regular = some (inode (real_file (join dir name)))
  shown name mtime special = none

  -- One round adds what is shown, if anything.
  abbrev pub added : Inode → Bytes → Option Inode → Inode
  added parent name none = parent
  added parent name (some c) = (add_child parent name c).0

  reals_step :
      (parent : Inode) (name : Bytes) (mtime : Option ℕ) (kind : Kind) (es : Entries)
      → reals parent (entry name mtime kind es)
        ≡ reals (added parent name (shown name mtime kind)) es
  reals_step parent name mtime (directory source) es = unfold populate in refl
  reals_step parent name mtime regular es = unfold populate in refl
  reals_step parent name mtime special es = unfold populate in refl

  added-IsWithin :
      (parent : Inode) (name : Bytes) (c : Option Inode)
      → IsWithin fuse parent (added parent name c)
  added-IsWithin parent name none x d h = h
  added-IsWithin parent name (some c) x d h = add_child-IsWithin fuse parent name c x d h

  reals-IsWithin : (parent : Inode) (es : Entries) → IsWithin fuse parent (reals parent es)
  reals-IsWithin parent nil x c h = unfold populate in h
  reals-IsWithin parent (entry n m k es) x c h = rw (reals_step parent n m k es) (
      reals-IsWithin (added parent n (shown n m k)) es x c
        (added-IsWithin parent n (shown n m k) x c h))

  added-source :
      (parent : Inode) (name : Bytes) (s : Option Inode) (x : Bytes) (c : Inode)
      → child (added parent name s) x ≡ some c
      → (child parent x ≡ some c) ⊎ ((x ≡ name) × (s ≡ some c))
  added-source parent name none x c h = inl h
  added-source parent name (some d) x c h = elim (add_child-source fuse parent name d x c h) [
    | inl old ↦ inl old
    | inr (here, new) ↦ inr (here, ap some (sym new))
  ]

  -- A real entry whose name is the child's
  abbrev pub IsEntry : Entries → Bytes → Inode → Type 0
  IsEntry es x c = (m : Option ℕ) × (k : Kind) × Has x m k es × (shown x m k ≡ some c)

  pub reals-source :
      (parent : Inode) (es : Entries) (x : Bytes) (c : Inode)
      → child (reals parent es) x ≡ some c
      → (child parent x ≡ some c) ⊎ IsEntry es x c
  reals-source parent nil x c h = inl (unfold populate in h)
  reals-source parent (entry n m k es) x c h =
      elim (reals-source (added parent n (shown n m k)) es x c
        (rw (reals_step parent n m k es) at h)) [
          | inr (m', k', has, same) ↦ inr (m', k', inr has, same)
          | inl early ↦ elim (added-source parent n (shown n m k) x c early) [
            | inl old ↦ inl old
            | inr (here, same) ↦ inr (m, k, inl (here, refl, refl), rw here same)
          ]
        ]

  -- No name of the entries is taken yet.
  abbrev pub IsFree : Inode → Entries → Type 0
  IsFree parent es = (x : Bytes) (m : Option ℕ) (k : Kind) → Has x m k es → child parent x ≡ none

  added-IsFree :
      (parent : Inode) (n : Bytes) (m : Option ℕ) (k : Kind) (es : Entries)
      → IsDistinct (entry n m k es)
      → IsFree parent (entry n m k es)
      → IsFree (added parent n (shown n m k)) es
  added-IsFree parent n m k es distinct free x m' k' has =
      elim (Option-cases (child (added parent n (shown n m k)) x)) [
        | inl none_there ↦ none_there
        | inr (c, found) ↦ elim (added-source parent n (shown n m k) x c found) [
          | inl old ↦ absurd (cc (old, free x m' k' (inr has)))
          | inr (here, _) ↦ absurd (distinct.0 m' k' (subst (λ z. Has z m' k' es) here has))
        ]
      ]

  added-found :
      (parent : Inode) (n : Bytes) (s : Option Inode) {c : Inode}
      → child parent n ≡ none
      → s ≡ some c
      → child (added parent n s) n ≡ some c
  added-found parent n none free e = absurd (cc e)
  added-found parent n (some d) free e = (fuse.add_child_free parent n d free).1 ∙ e

  pub reals-found :
      (parent : Inode) (es : Entries) (x : Bytes) (m : Option ℕ) (k : Kind) {c : Inode}
      → IsDistinct es
      → IsFree parent es
      → Has x m k es
      → shown x m k ≡ some c
      → child (reals parent es) x ≡ some c
  reals-found parent nil x m k distinct free has e = absurd has
  reals-found parent (entry n m' k' es) x m k {c} distinct free (inl (hx, hm, hk)) e =
      let e' : shown n m' k' ≡ some c = rw (sym hx, sym hm, sym hk) e in
      rw (reals_step parent n m' k' es, hx)
        (reals-IsWithin (added parent n (shown n m' k')) es n c
          (added-found parent n (shown n m' k') (free n m' k' (inl (refl, refl, refl))) e'))
  reals-found parent (entry n m' k' es) x m k distinct free (inr has) e =
      rw (reals_step parent n m' k' es) (
        reals-found (added parent n (shown n m' k')) es x m k distinct.1
          (added-IsFree parent n m' k' es distinct free) has e)
