-- ===== src/Vfs/Scan/Contents.antt =====
-- `populate` in internal/vfs/vfs.go: the children of a folder of the mount, from both sides.
use chipfs.Base.{ℕ, ◌≡◌, refl, ◌⊎◌, inl, inr, List, Option, some, Bytes}
use chipfs.Vfs.{TrackEntry}
use chipfs.Vfs.Names.{most_common}
use chipfs.Vfs.Nodes.{Node}
use chipfs.Vfs.Paths.{join}
use chipfs.Vfs.Scan.{
  Fuse, entries, Entries, Kind, regular, PendingChip, spc_artists, populate, add_pending,
}
use chipfs.Vfs.Scan.Listing.{
  Has, IsDistinct, shown, pending, reals, IsEntry, reals-source, reals-found,
}
use chipfs.Vfs.Scan.Pending.{
  folder_of, add_pending-IsWithin, add_pending-source, IsNameOf, IsListed, add_pending-IsListed,
}
use chipfs.Vfs.Scan.Recognized.{chip_of, IsRecognized, pending-IsRecognized, pending-found}

module _ (fuse : Fuse) (tracks_of : Bytes → Option (List TrackEntry)) (dir : Bytes) (n : Node)
    (es : Entries) where
  open fuse use {Inode, inode, child}

  -- The folder of a directory with these entries, and the album artist of its SPC files
  abbrev pub folder : Inode
  folder = populate fuse tracks_of (inode n) dir (entries es)

  abbrev pub album_artist : Bytes
  album_artist = most_common (spc_artists (pending fuse tracks_of dir (inode n) es))

  folder_lem :
      folder
      ≡ add_pending fuse album_artist
          (reals fuse tracks_of dir (inode n) es)
          (pending fuse tracks_of dir (inode n) es)
  folder_lem = unfold populate in refl

  -- The real entries of a directory always keep their names: a regular file is a passthrough file,
  -- and a subdirectory is a folder that is populated in the same way, whatever virtual folders
  -- there are. The names of a directory are different.
  pub populate-shown :
      IsDistinct es
      → (x : Bytes) (m : Option ℕ) (k : Kind) {c : Inode} → Has x m k es
      → shown fuse tracks_of dir x m k ≡ some c
      → child folder x ≡ some c
  populate-shown distinct x m k {c} has e = rw folder_lem (
      add_pending-IsWithin fuse album_artist (reals fuse tracks_of dir (inode n) es)
        (pending fuse tracks_of dir (inode n) es) x c
        (reals-found fuse tracks_of dir (inode n) es x m k distinct
          (λ y m' k' has'. fuse.child-inode n y) has e))

  -- A folder shows nothing else: every child is a regular file or a subdirectory of the directory
  -- under its own name, or the virtual folder of a regular file with tracks, under its stem or its
  -- fallback and with the album artist of the directory. A symlink or a device is never shown.
  pub populate-source :
      (x : Bytes) (c : Inode)
      → child folder x ≡ some c
      → IsEntry fuse tracks_of dir es x c
        ⊎ ((p : PendingChip) × IsRecognized fuse tracks_of dir es p
            × IsNameOf fuse album_artist x p
            × (c ≡ folder_of fuse album_artist p))
  populate-source x c h =
      elim (add_pending-source fuse album_artist (reals fuse tracks_of dir (inode n) es)
        (pending fuse tracks_of dir (inode n) es) x c (rw folder_lem at h)) [
          | inl real ↦ elim (reals-source fuse tracks_of dir (inode n) es x c real) [
            | inl old ↦ absurd (cc (old, fuse.child-inode n x))
            | inr listed ↦ inl listed
          ]
          | inr (p, among, named, same) ↦
              inr (p, pending-IsRecognized fuse tracks_of dir (inode n) es p among, named, same)
        ]

  -- A regular file with tracks has its virtual folder under its stem, or under its fallback while
  -- the stem is empty or taken; it goes without one only while both names are taken.
  pub populate-IsListed :
      (x : Bytes) (m : Option ℕ) (tracks : List TrackEntry)
      → Has x m regular es
      → tracks_of (join dir x) ≡ some tracks
      → IsListed fuse album_artist folder (chip_of fuse tracks_of dir x m tracks)
  populate-IsListed x m tracks has found = rw folder_lem (
      add_pending-IsListed fuse album_artist (reals fuse tracks_of dir (inode n) es)
        (pending fuse tracks_of dir (inode n) es) (chip_of fuse tracks_of dir x m tracks)
        (pending-found fuse tracks_of dir (inode n) es x m tracks has found))
