-- ===== src/Vfs/Scan/Mounted.antt =====
-- From a source directory to the bytes of a track: `populate`, `OnAdd`, `Getattr` and `renderTrack`
-- of internal/vfs/vfs.go together.
use chipfs.Base.{
  ℕ, ◌<◌, ◌≡◌, refl, sym, ap, ◌∙◌, ◌++◌, List, [], ◌∷◌, inl, inr, Bool-cases, length, get_elem?,
  Option, none, some, Bytes, Result, ok, zero, suc, arith,
}
use chipfs.Cache.{Cache}
use chipfs.Gme.{Libgme}
use chipfs.Vfs.{TrackEntry}
use chipfs.Vfs.Nodes.{Node, track_file, Attr, track_file_getattr}
use chipfs.Vfs.Store.Coherent.{IsCoherent}
use chipfs.Vfs.Store.Reader.{read_all, read_all-drop}
use chipfs.Vfs.Parsers.{build_track_list}
use chipfs.Vfs.Parsers.Tool.{listed-IsServable}
use chipfs.Vfs.Paths.{join}
use chipfs.Vfs.Render.{TrackFile, new_track_file, render_track}
use chipfs.Vfs.Render.Track.{render_track-new_track_file}
use chipfs.Vfs.Scan.{Fuse, Entries, regular, PendingChip}
use chipfs.Vfs.Scan.Listing.{Has}
use chipfs.Vfs.Scan.Pending.{Among, folder_of, IsListed}
use chipfs.Vfs.Scan.Recognized.{chip_of}
use chipfs.Vfs.Scan.ChipFolder.{credited, folder_of-found, build_track_list-AllDistinct}
use chipfs.Vfs.Scan.Contents.{folder, album_artist, populate-IsListed}

Among-get : {A : Type 0} (a : A) (l : List A) → Among a l → (i : ℕ) × (get_elem? l i ≡ some a)
Among-get a [] h = absurd h
Among-get a (b ∷ l) (inl here) = (zero, ap some (sym here))
Among-get a (b ∷ l) (inr there) = let (i, at_i) = Among-get a l there in (suc i, at_i)

size_of_getattr :
    (m : Option ℕ) (f : TrackFile) (out : Attr)
    → (track_file_getattr m f out).size ≡ f.estimated_size
unfolding track_file_getattr
size_of_getattr none f out = refl
size_of_getattr (some t) f out = refl

-- The blank attributes that a handler is given
abbrev pub blank : Attr
blank = record { mode = 0; size = 0; times = none }

-- An album artist changes no duration.
credited_times :
    (artist : Bytes) (p : PendingChip) (t : TrackEntry)
    → ((credited artist p t).play_ms ≡ t.play_ms) × ((credited artist p t).fade_ms ≡ t.fade_ms)
credited_times artist p t = elim (Bool-cases p.is_spc) [
  | inl is ↦ rw is (refl, refl)
  | inr isnt ↦ rw isnt (refl, refl)
]

module _ (abs : Bytes → Option Bytes) (read_file : Bytes → Result Bytes Bytes) (dp df : ℕ)
    (fuse : Fuse) (n : Node) (dir : Bytes) (es : Entries) where
  abbrev pub tracks_of : Bytes → Option (List TrackEntry)
  tracks_of path = build_track_list abs read_file path dp df

  -- The album artist of the directory, and the pending chip of one of its files
  abbrev pub artist : Bytes
  artist = album_artist fuse tracks_of dir n es

  abbrev pub chip : Bytes → Option ℕ → List TrackEntry → PendingChip
  chip x m tracks = chip_of fuse tracks_of dir x m tracks

  -- The file of a track, as the mount shows it
  abbrev pub file : Bytes → Option ℕ → List TrackEntry → TrackEntry → TrackFile
  file x m tracks t = new_track_file (join dir x) (credited artist (chip x m tracks) t)

  module _ (hp : 0 < dp) (hf : 0 < df) (x : Bytes) (m : Option ℕ) (tracks : List TrackEntry)
      (t : TrackEntry) (has : Has x m regular es) (found : tracks_of (join dir x) ≡ some tracks)
      (among : Among t tracks) where
    -- For a regular file in which the parsers find tracks, with defaults that are positive: its
    -- virtual folder is placed under its stem or its fallback, or both names are taken; and every
    -- track has a file of its own there, under its name.
    pub populate-track_file :
        IsListed fuse artist (folder fuse tracks_of dir n es) (chip x m tracks)
        × (fuse.child (folder_of fuse artist (chip x m tracks)) t.filename
            ≡ some (fuse.inode (track_file m (file x m tracks t))))
    populate-track_file = (
      populate-IsListed fuse tracks_of dir n es x m tracks has found,
      folder_of-found fuse artist (chip x m tracks) t
          (build_track_list-AllDistinct abs (join dir x) read_file dp df found) among,
    )

    file_made :
        (lib : Libgme) {w : Bytes}
        → render_track lib read_file (file x m tracks t) ≡ ok w
        → (length w ≡ (track_file_getattr m (file x m tracks t) blank).size)
          × (rest : Bytes) × (w ≡ (file x m tracks t).header ++ rest)
    file_made lib made =
        let (i, at_i) = Among-get t tracks among in
        let fine = listed-IsServable abs read_file (join dir x) dp df i hp hf found at_i in
        let (same_play, same_fade) = credited_times artist (chip x m tracks) t in
        let (_, _, samples, _, _, size, layout, _) =
          render_track-new_track_file lib read_file (join dir x)
            (credited artist (chip x m tracks) t) (rw same_play fine.play_within)
            (rw same_fade fine.fade_within) made in
        (size ∙ sym (size_of_getattr m (file x m tracks t) blank), _, layout)

    -- The file of such a track in its folder, what a client reads of it, and its size.
    pub populate-read :
        (lib : Libgme) (content : List ℕ → ℕ → Option Bytes) {c : Cache} {w : Bytes} (dest : ℕ)
        → render_track lib read_file (file x m tracks t) ≡ ok w
        → content (file x m tracks t).source_path (file x m tracks t).entry.track_idx ≡ some w
        → IsCoherent content c
        → 0 < dest
        → (fuse.child (folder_of fuse artist (chip x m tracks)) t.filename
            ≡ some (fuse.inode (track_file m (file x m tracks t))))
          × (read_all lib read_file (suc (length w)) c (file x m tracks t) dest 0 ≡ some w)
          × (length w ≡ (track_file_getattr m (file x m tracks t) blank).size)
    populate-read lib content {c} {w} dest made right coherent pos =
        let (size, rest, layout) = file_made lib made in
        (
          populate-track_file.1,
          read_all-drop content lib read_file (file x m tracks t) rest dest right made layout pos
              (suc (length w)) 0 coherent (omega arith),
          size,
        )

    -- Take the file of a track of such a regular file, as `populate` puts it into its folder, a
    -- render of it that succeeds, and a cache with nothing but renders in it. A client that opens
    -- the file by its name and reads from its start, in buffers of any positive size, until a read
    -- gives nothing, gets the whole render, and as many bytes as `Getattr` reports.
    pub read_all-populate :
        (lib : Libgme) (content : List ℕ → ℕ → Option Bytes) {c : Cache} {w : Bytes} (dest : ℕ)
        → render_track lib read_file (file x m tracks t) ≡ ok w
        → content (file x m tracks t).source_path (file x m tracks t).entry.track_idx ≡ some w
        → IsCoherent content c
        → 0 < dest
        → (f : TrackFile) × (fuse.child (folder_of fuse artist (chip x m tracks)) t.filename
            ≡ some (fuse.inode (track_file m f)))
          × (read_all lib read_file (suc (length w)) c f dest 0 ≡ some w)
          × (length w ≡ (track_file_getattr m f blank).size)
    read_all-populate lib content dest made right coherent pos =
        let (child, bytes, size) = populate-read lib content dest made right coherent pos in
        (file x m tracks t, child, bytes, size)
