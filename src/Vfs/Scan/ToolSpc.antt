-- ===== src/Vfs/Scan/ToolSpc.antt =====
-- `RenderTrack` of internal/vfs/vfs.go against the mount, on an SPC file: the one difference.
use chipfs.Base.{
  ℕ, zero, suc, ◌≡◌, refl, sym, ap, List, [], ◌∷◌, true, get_elem?, Option, some, Bytes, pos,
  Result, ok,
}
use chipfs.Gme.{Libgme}
use chipfs.Vfs.{Options, TrackEntry, apply_defaults}
use chipfs.Vfs.Durations.{apply_defaults_positive}
use chipfs.Vfs.Nodes.{Node, track_file}
use chipfs.Vfs.Parsers.{RenderedTrack, build_track_list, render_track_at}
use chipfs.Vfs.Parsers.Tool.{build_track_list_parsed, render_track_at-render_track}
use chipfs.Vfs.Paths.{join}
use chipfs.Vfs.Render.{TrackFile, new_track_file, render_track}
use chipfs.Vfs.Tracks.{ChipFile, ChipTrack, build_entry, build_entries, track_list}
use chipfs.Vfs.Scan.{Fuse, Entries, regular, is_spc_name, with_artist}
use chipfs.Vfs.Scan.Album.{get-Among}
use chipfs.Vfs.Scan.Listing.{Has}
use chipfs.Vfs.Scan.Mounted.{populate-track_file, artist, chip, file}
use chipfs.Vfs.Scan.Pending.{folder_of}

build_entries_no_artist :
    (cf : ChipFile) (dp df start : ℕ) (ts : List ChipTrack) (i : ℕ) {t : TrackEntry}
    → get_elem? (build_entries cf dp df start ts) i ≡ some t
    → t.opts.metadata.album_artist ≡ []
unfolding build_entries build_entry
build_entries_no_artist cf dp df start [] i h = absurd (cc h)
build_entries_no_artist cf dp df start (u ∷ ts) zero {t} h =
    let same : build_entry cf dp df start u ≡ t = cc h in
    ap (λ (e : TrackEntry). e.opts.metadata.album_artist) (sym same)
build_entries_no_artist cf dp df start (u ∷ ts) (suc i) h =
    build_entries_no_artist cf dp df (suc start) ts i h

listed_no_artist :
    (abs : Bytes → Option Bytes) (read_file : Bytes → Result Bytes Bytes) (path : Bytes) (dp df : ℕ)
    {tracks : List TrackEntry} (i : ℕ) {t : TrackEntry}
    → build_track_list abs read_file path dp df ≡ some tracks
    → get_elem? tracks i ≡ some t
    → t.opts.metadata.album_artist ≡ []
unfolding track_list
listed_no_artist abs read_file path dp df i listed at_i =
    let (cf, _, _, _, from) = build_track_list_parsed abs read_file path dp df listed in
    build_entries_no_artist cf dp df 0 cf.tracks i (rw from at at_i)

module _ (abs : Bytes → Option Bytes) (read_file : Bytes → Result Bytes Bytes) (opts : Options)
    (fuse : Fuse) (n : Node) (dir : Bytes) (es : Entries) where
  -- Let a directory have a regular file with an SPC extension that is listed with the durations of
  -- the options, and let a track of it, as it is listed, render. Then `RenderTrack` without
  -- overrides gives the track a name under which the virtual folder of the file has a track file,
  -- with the same durations. The tool's metadata has no album artist; the file's has the one of the
  -- directory, and is otherwise the tool's.
  pub render_track_at_spc :
      (x : Bytes) (m : Option ℕ) {tracks : List TrackEntry} (i : ℕ) {t : TrackEntry} (lib : Libgme)
      {w : Bytes}
      → Has x m regular es
      → is_spc_name x ≡ true
      → build_track_list abs read_file
          (join dir x)
          (apply_defaults opts).play_ms
          (apply_defaults opts).fade_ms
        ≡ some tracks
      → get_elem? tracks i ≡ some t
      → render_track lib read_file (new_track_file (join dir x) t) ≡ ok w
      → let d = apply_defaults opts in
        let credit = artist abs read_file d.play_ms d.fade_ms fuse n dir es in
        let p = chip abs read_file d.play_ms d.fade_ms fuse n dir es x m tracks in
        (out : RenderedTrack) × (render_track_at abs read_file lib
            (join dir x)
            i
            (pos 0)
            (pos 0)
            opts
          ≡ ok out)
        × (f : TrackFile) × (fuse.child (folder_of fuse credit p) out.filename
            ≡ some (fuse.inode (track_file m f)))
        × (out.play_ms ≡ f.entry.play_ms)
        × (out.fade_ms ≡ f.entry.fade_ms)
        × (out.metadata.album_artist ≡ [])
        × (f.entry.opts.metadata ≡ record (out.metadata) { album_artist = credit })
  render_track_at_spc x m {tracks} i {t} lib has is found at_i made =
      let d = apply_defaults opts in
      let (hp, hf, _) = apply_defaults_positive opts in
      let credit = artist abs read_file d.play_ms d.fade_ms fuse n dir es in
      let f = new_track_file (join dir x) (with_artist credit t) in
      let same : file abs read_file d.play_ms d.fade_ms fuse n dir es x m tracks t ≡ f =
        rw is refl in
      let child =
        (populate-track_file abs read_file d.play_ms d.fade_ms fuse n dir es hp hf x m tracks t has
          found (get-Among tracks i at_i)).1 in
      (
        _,
        render_track_at-render_track abs read_file lib (join dir x) opts i found at_i made,
        f,
        rw same at child,
        unfold new_track_file in refl,
        unfold new_track_file in refl,
        listed_no_artist abs read_file (join dir x) d.play_ms d.fade_ms i found at_i,
        unfold new_track_file in refl,
      )
