-- ===== src/Vfs/Scan.antt =====
-- internal/vfs/vfs.go: the tree of inodes that `populate` makes of a source directory. go-fuse is
-- a parameter. An inode is a value that holds what is below it: a new folder is filled before it is
-- hung into its parent, where the code hangs it first, and nobody else holds it in between.
pub mod Folder
pub mod Pending
pub mod Listing
pub mod Recognized
pub mod Contents
pub mod ChipFolder
pub mod Mounted
pub mod Album
pub mod SpcTrack
pub mod Tool
pub mod ToolSpc
pub mod Memory
mod Tests
mod Samples
mod SpcSamples
use chipfs.Base.{
  ℕ, zero, suc, List, [], ◌∷◌, ◌++◌, Bool, true, false, if◌then◌else◌, length, take, drop, map,
  Option, none, some, Bytes, text, trim_space, Result, ◌≡◌, ◌≢◌, ◌-◌,
}
use chipfs.Formats.{equal}
use chipfs.Vfs.{TrackEntry}
use chipfs.Vfs.Names.{most_common}
use chipfs.Vfs.Parsers.{ext_back, reversed, lower, build_track_list}
use chipfs.Vfs.Paths.{join}
use chipfs.Vfs.Render.{TrackFile, new_track_file}
use chipfs.Vfs.Nodes.{ChipDir, Root, Node, root, source_dir, real_file, chip_dir, track_file}

-- The inodes of go-fuse: a new inode has no child, and `AddChild` without `overwrite` adds a child
-- unless its name is taken.
pub record Fuse : Type 1 where
  pub Inode : Type 0
  pub inode : Node → Inode
  pub add_child : Inode → Bytes → Inode → Inode × Bool
  pub child : Inode → Bytes → Option Inode
  pub node : Inode → Node
  pub node-inode : (n : Node) → node (inode n) ≡ n
  pub child-inode : (n : Node) (name : Bytes) → child (inode n) name ≡ none
  pub node-add_child : (i : Inode) (name : Bytes) (c : Inode) → node (add_child i name c).0 ≡ node i
  pub add_child_taken :
      (i : Inode) (name : Bytes) (c d : Inode)
      → child i name ≡ some d
      → add_child i name c ≡ (i, false)
  pub add_child_free :
      (i : Inode) (name : Bytes) (c : Inode)
      → child i name ≡ none
      → ((add_child i name c).1 ≡ true) × (child (add_child i name c).0 name ≡ some c)
  pub child-add_child_other :
      (i : Inode) (name : Bytes) (c : Inode) (other : Bytes)
      → other ≢ name
      → child (add_child i name c).0 other ≡ child i other

-- What `os.ReadDir` finds below a directory: the names in order, each with the mtime that `Info`
-- gives. Symlinks and devices are `special`.
mutual
  pub data Source : Type 0 where
    unreadable : Source
    entries : Entries → Source

  pub data Entries : Type 0 where
    nil : Entries
    entry : Bytes → Option ℕ → Kind → Entries → Entries

  pub data Kind : Type 0 where
    directory : Source → Kind
    regular : Kind
    special : Kind

-- `pendingChip`
pub record PendingChip : Type 0 where
  pub name : Bytes
  pub is_spc : Bool
  pub chip : ChipDir

-- `filepath.Ext`, and `strings.EqualFold(ext, ".spc")` for the extension of a file with tracks
abbrev pub ext_of : Bytes → Bytes
ext_of name = ext_back (reversed name []) []

unfoldable pub is_spc_name : Bytes → Bool
is_spc_name name = equal (lower (ext_of name)) (text ".spc")

-- `tracks[0].opts.Metadata.Artist`. An SPC file has one track.
abbrev pub first_artist : List TrackEntry → List Bytes
first_artist [] = []
first_artist (t ∷ tracks) = t.opts.metadata.artist ∷ []

-- `p.chip.tracks[i].opts.Metadata.AlbumArtist = albumArtist`, for every track of an SPC file
abbrev pub with_artist : Bytes → TrackEntry → TrackEntry
with_artist artist t = record t {
  opts = record t.opts { metadata = record t.opts.metadata { album_artist = artist } };
}

unfoldable pub with_album_artist : Bytes → PendingChip → ChipDir
with_album_artist artist p =
    if p.is_spc then record p.chip { tracks = map (with_artist artist) p.chip.tracks } else p.chip

-- The two names of a virtual folder in `addChipDir`: the stem, and the fallback
abbrev pub stem_of : Bytes → Bytes
stem_of name = take (length name - length (ext_of name)) name

unfoldable pub fallback_of : Bytes → Bytes
fallback_of name = trim_space (stem_of name ++ (text " (" ++ (drop 1 (ext_of name) ++ text ")")))

-- What the first loop keeps for a regular file: nothing, or a pending chip.
abbrev pub pending_of : Bytes → Bytes → Option ℕ → Option (List TrackEntry) → List PendingChip
pending_of name full_path mtime none = []
pending_of name full_path mtime (some tracks) =
    record {
      name = name;
      is_spc = is_spc_name name;
      chip = record { source_path = full_path; mtime = mtime; tracks = tracks };
    }
    ∷ []

abbrev pub artists_of : PendingChip → List Bytes
artists_of p = if p.is_spc then first_artist p.chip.tracks else []

abbrev pub spc_artists : List PendingChip → List Bytes
spc_artists [] = []
spc_artists (p ∷ pending) = artists_of p ++ spc_artists pending

module _ (fuse : Fuse) where
  open fuse use {Inode, inode, add_child}

  -- `ChipDir.OnAdd`, from the track `tracks` on
  unfoldable pub add_tracks : ChipDir → Inode → List TrackEntry → Inode
  add_tracks d dir [] = dir
  add_tracks d dir (t ∷ tracks) =
      let tf = inode (track_file d.mtime (new_track_file d.source_path t)) in
      add_tracks d (add_child dir t.filename tf).0 tracks

  -- `NewPersistentInode` for a `ChipDir`, which has go-fuse call `OnAdd`
  unfoldable pub chip_inode : ChipDir → Inode
  unfolding add_tracks
  chip_inode d = add_tracks d (inode (chip_dir d)) d.tracks

  -- `addChipDir`
  unfoldable pub add_chip_dir : Inode → Bytes → Inode → Inode
  add_chip_dir parent file_name dir =
      let fallback = (add_child parent (fallback_of file_name) dir).0 in
      let (parent', added) = add_child parent (stem_of file_name) dir in
      if equal (stem_of file_name) [] then fallback else if added then parent' else fallback

  -- The second loop of `populate`
  unfoldable pub add_pending : Bytes → Inode → List PendingChip → Inode
  unfolding with_album_artist chip_inode add_chip_dir
  add_pending album_artist parent [] = parent
  add_pending album_artist parent (p ∷ pending) =
      add_pending album_artist
        (add_chip_dir parent p.name (chip_inode (with_album_artist album_artist p))) pending

  module _ (tracks_of : Bytes → Option (List TrackEntry)) where
    -- `populate`, and its first loop: the parent with the real entries, and the pending chips.
    -- `tracks_of` is `buildTrackList` with the durations of the root.
    unfoldable mutual
      pub populate : Inode → Bytes → Source → Inode
      populate parent dir unreadable = parent
      populate parent dir (entries es) =
          let (parent', pending) = add_entries parent dir es in
          add_pending (most_common (spc_artists pending)) parent' pending

      pub add_entries : Inode → Bytes → Entries → Inode × List PendingChip
      add_entries parent dir nil = (parent, [])
      add_entries parent dir (entry name mtime kind es) =
          let (added, pending) = add_entry parent dir name mtime kind in
          let (parent', others) = add_entries added dir es in (parent', pending ++ others)

      pub add_entry : Inode → Bytes → Bytes → Option ℕ → Kind → Inode × List PendingChip
      add_entry parent dir name mtime (directory source) = (
        (add_child parent name (populate (inode (source_dir mtime)) (join dir name) source)).0,
        [],
      )
      add_entry parent dir name mtime regular = (
        (add_child parent name (inode (real_file (join dir name)))).0,
        pending_of name (join dir name) mtime (tracks_of (join dir name)),
      )
      add_entry parent dir name mtime special = (parent, [])

  module _ (abs : Bytes → Option Bytes) (read_file : Bytes → Result Bytes Bytes) where
    -- `Root.OnAdd`
    unfoldable pub on_add : Root → Source → Inode
    unfolding populate
    on_add r source =
        populate (λ path. build_track_list abs read_file path r.default_play_ms r.default_fade_ms)
          (inode (root r)) r.source_dir source
