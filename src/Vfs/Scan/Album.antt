-- ===== src/Vfs/Scan/Album.antt =====
-- From an NSFe file in the source directory to the bytes that a client of the mount reads: the
-- parser, the track list, `populate`, `Read` and `renderTrack` together.
use chipfs.Base.{
  ℕ, zero, suc, ◌+◌, ◌<◌, ◌≡◌, ◌⊎◌, refl, sym, ap, ◌∙◌, List, [], ◌∷◌, inl, inr, false, length,
  get_elem?, Option, some, Bytes, Result, ok, arith,
}
use chipfs.Cache.{Cache}
use chipfs.Gme.{Libgme}
use chipfs.Formats.Nsf.{int32}
use chipfs.Formats.Nsf.Written.{Song, Album, played, info_of}
use chipfs.Vfs.{TrackEntry, max_play_ms, max_fade_ms}
use chipfs.Vfs.Names.Tidy.{IsTidy, IsName, clean_tag-IsTidy}
use chipfs.Vfs.Nodes.{Node, track_file, track_file_getattr}
use chipfs.Vfs.Parsers.{nsf, chip_parsers, lower, ext_back, reversed}
use chipfs.Vfs.Parsers.Album.{IsNsfe, chip_file, build_track_list-IsNsfe, get_elem?-build_entries}
use chipfs.Vfs.Paths.{join}
use chipfs.Vfs.Render.{TrackFile, new_track_file, render_track}
use chipfs.Vfs.Store.Coherent.{IsCoherent}
use chipfs.Vfs.Store.Reader.{read_all}
use chipfs.Vfs.Tracks.{chip_track, build_entry, track_list}
use chipfs.Vfs.Tracks.Named.{IsMissing, IsTitled, filename_of-IsTitled, Lasts, clamp_ms-Lasts}
use chipfs.Vfs.Scan.{Fuse, Entries, regular, is_spc_name}
use chipfs.Vfs.Scan.Contents.{folder}
use chipfs.Vfs.Scan.Listing.{Has}
use chipfs.Vfs.Scan.Mounted.{
  populate-track_file, populate-read, tracks_of, artist, chip, file, blank,
}
use chipfs.Vfs.Scan.Pending.{Among, folder_of, IsListed}

pub get-Among : {A : Type 0} (l : List A) (i : ℕ) {a : A} → get_elem? l i ≡ some a → Among a l
get-Among [] i h = absurd (cc h)
get-Among (b ∷ l) zero h = inl (sym (cc h))
get-Among (b ∷ l) (suc i) h = inr (get-Among l i h)

-- The entry of a song of the album, at the place `i` of the playlist
abbrev pub song_entry : Album → ℕ → ℕ → ℕ → Song → TrackEntry
song_entry a default_play_ms default_fade_ms i s =
    build_entry (chip_file a) default_play_ms default_fade_ms i (chip_track (info_of s))

pub track_list-get :
    (a : Album) (dp df i : ℕ) {s : Song}
    → get_elem? (played a.playlist a.songs) i ≡ some s
    → get_elem? (track_list (chip_file a) dp df) i ≡ some (song_entry a dp df i s)
unfolding track_list
track_list-get a dp df i {s} song =
    let same : 0 + i ≡ i = omega arith in
    get_elem?-build_entries (chip_file a) dp df 0 i (played a.playlist a.songs) song
    ∙ ap (λ (j : ℕ). some (song_entry a dp df j s)) same

module _ (abs : Bytes → Option Bytes) (read_file : Bytes → Result Bytes Bytes) (dp df : ℕ)
    (fuse : Fuse) (n : Node) (dir : Bytes) (es : Entries) where
  -- Let a directory have a regular file that holds an album, with the extension of NSF or NSFe, and
  -- let the defaults be positive. Its virtual folder is placed under its stem or its fallback, or
  -- both names are taken. Take a song of the playlist whose title is missing or a plain name as
  -- it stands, of an album whose texts have no space at their ends and are no placeholder. It has a
  -- file there, under its number and title, or the number alone. The file has the song's place as
  -- its index and number, its title, the texts of the album, and no album artist; it lasts as long
  -- as the song says, or the default where that is not positive, up to 20 minutes, and fades as
  -- long as the song says, or the default where that is not positive (a fade of 0 among them), up
  -- to one minute. If its render succeeds, over a cache with nothing but renders in it, a client that
  -- reads it to its end gets the whole render, with as many bytes as `Getattr` reports.
  pub read_all-song :
      (x : Bytes) (m : Option ℕ) {bytes : Bytes} {a : Album} (i : ℕ) {s : Song} (lib : Libgme)
      (content : List ℕ → ℕ → Option Bytes) {c : Cache} {w : Bytes} (dest : ℕ)
      → 0 < dp
      → 0 < df
      → Has x m regular es
      → chip_parsers (lower (ext_back (reversed (join dir x) []) [])) ≡ some nsf
      → is_spc_name x ≡ false
      → read_file (join dir x) ≡ ok bytes
      → IsNsfe bytes a
      → get_elem? (played a.playlist a.songs) i ≡ some s
      → IsName s.title ⊎ IsMissing s.title
      → IsTidy a.artist
      → IsTidy a.title
      → render_track lib read_file (new_track_file (join dir x) (song_entry a dp df i s)) ≡ ok w
      → content (join dir x) i ≡ some w
      → IsCoherent content c
      → 0 < dest
      → let tracks = track_list (chip_file a) dp df in
        let credit = artist abs read_file dp df fuse n dir es in
        let p = chip abs read_file dp df fuse n dir es x m tracks in
        IsListed fuse credit (folder fuse (tracks_of abs read_file dp df fuse n dir es) dir n es) p
        × (f : TrackFile) × (name : Bytes) × IsTitled i s.title f.entry.opts.metadata.title name
        × (fuse.child (folder_of fuse credit p) name ≡ some (fuse.inode (track_file m f)))
        × (f.entry.track_idx ≡ i)
        × (f.entry.opts.metadata.artist ≡ a.artist)
        × (f.entry.opts.metadata.album ≡ a.title)
        × (f.entry.opts.metadata.album_artist ≡ [])
        × (f.entry.opts.metadata.track ≡ suc i)
        × Lasts (int32 s.duration_bits) dp 1200000 f.entry.play_ms
        × Lasts (int32 s.fade_bits) df 60000 f.entry.fade_ms
        × (read_all lib read_file (suc (length w)) c f dest 0 ≡ some w)
        × (length w ≡ (track_file_getattr m f blank).size)
  unfolding build_entry
  read_all-song x m {a} i {s} lib content {c} {w} dest hp hf has named plain held h song title
        artist' album made right coherent pos =
      let tracks = track_list (chip_file a) dp df in
      let t = song_entry a dp df i s in
      let found = build_track_list-IsNsfe abs read_file (join dir x) dp df named held h in
      let among = get-Among tracks i (track_list-get a dp df i song) in
      let f = new_track_file (join dir x) t in
      let right' : content f.source_path f.entry.track_idx ≡ some w =
        unfold new_track_file in right in
      let same : file abs read_file dp df fuse n dir es x m tracks t ≡ f = rw plain refl in
      let (child, read, size) =
        populate-read abs read_file dp df fuse n dir es hp hf x m tracks t has found among lib
          content {w = w} dest (rw same made) (rw same right') coherent pos in
      (
        (populate-track_file abs read_file dp df fuse n dir es hp hf x m tracks t has found
            among).0,
        f,
        t.filename,
        unfold new_track_file in (filename_of-IsTitled s.title i title),
        rw same at child,
        unfold new_track_file in refl,
        unfold new_track_file in (clean_tag-IsTidy a.artist artist'),
        unfold new_track_file in (clean_tag-IsTidy a.title album),
        unfold new_track_file in refl,
        unfold new_track_file in refl,
        unfold new_track_file in (clamp_ms-Lasts (int32 s.duration_bits) dp max_play_ms),
        unfold new_track_file in (clamp_ms-Lasts (int32 s.fade_bits) df max_fade_ms),
        rw same at read,
        rw same at size,
      )
