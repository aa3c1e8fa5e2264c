-- ===== src/Vfs/Scan/Tool.antt =====
-- `RenderTrack` of internal/vfs/vfs.go against the mount: the file that the tool renders is the one
-- that a client reads, but for the album artist of SPC files, which only the mount sets.
use chipfs.Base.{
  ℕ, suc, ◌<◌, ◌≡◌, refl, List, false, length, get_elem?, Option, some, Bytes, pos, Result, ok,
}
use chipfs.Cache.{Cache}
use chipfs.Gme.{Libgme}
use chipfs.Vfs.{Options, TrackEntry, apply_defaults}
use chipfs.Vfs.Durations.{apply_defaults_positive}
use chipfs.Vfs.Nodes.{Node, track_file}
use chipfs.Vfs.Parsers.{RenderedTrack, build_track_list, render_track_at}
use chipfs.Vfs.Parsers.Tool.{render_track_at-render_track}
use chipfs.Vfs.Paths.{join}
use chipfs.Vfs.Render.{TrackFile, new_track_file, render_track}
use chipfs.Vfs.Store.Coherent.{IsCoherent}
use chipfs.Vfs.Store.Reader.{read_all}
use chipfs.Vfs.Scan.{Fuse, Entries, regular, is_spc_name}
use chipfs.Vfs.Scan.Album.{get-Among}
use chipfs.Vfs.Scan.Listing.{Has}
use chipfs.Vfs.Scan.Mounted.{populate-read, artist, chip, file}
use chipfs.Vfs.Scan.Pending.{folder_of}

module _ (abs : Bytes → Option Bytes) (read_file : Bytes → Result Bytes Bytes) (opts : Options)
    (fuse : Fuse) (n : Node) (dir : Bytes) (es : Entries) where
  -- Let a directory have a regular file that has no SPC extension and is listed with the durations
  -- of the options, and let a track of it render. Then `RenderTrack` without overrides gives, for
  -- the index of the track, a name under which the virtual folder of the file has a track file. The
  -- bytes are those that a client of the mount reads from that file to its end, over a cache with
  -- nothing but renders in it, and the durations and the metadata are the file's.
  pub render_track_at-read_all :
      (x : Bytes) (m : Option ℕ) {tracks : List TrackEntry} (i : ℕ) {t : TrackEntry} (lib : Libgme)
      (content : List ℕ → ℕ → Option Bytes) {c : Cache} {w : Bytes} (dest : ℕ)
      → Has x m regular es
      → is_spc_name x ≡ false
      → build_track_list abs read_file
          (join dir x)
          (apply_defaults opts).play_ms
          (apply_defaults opts).fade_ms
        ≡ some tracks
      → get_elem? tracks i ≡ some t
      → render_track lib read_file (new_track_file (join dir x) t) ≡ ok w
      → content (join dir x) t.track_idx ≡ some w
      → IsCoherent content c
      → 0 < dest
      → let d = apply_defaults opts in
        let credit = artist abs read_file d.play_ms d.fade_ms fuse n dir es in
        let p = chip abs read_file d.play_ms d.fade_ms fuse n dir es x m tracks in
        (out : RenderedTrack) × (render_track_at abs read_file lib
            (join dir x)
            i
            (pos 0)
            (pos 0)
            opts
          ≡ ok out)
        × (f : TrackFile) × (fuse.child (folder_of fuse credit p) out.filename
            ≡ some (fuse.inode (track_file m f)))
        × (read_all lib read_file (suc (length w)) c f dest 0 ≡ some out.wav)
        × (out.play_ms ≡ f.entry.play_ms)
        × (out.fade_ms ≡ f.entry.fade_ms)
        × (out.metadata ≡ f.entry.opts.metadata)
        × (out.track_count ≡ length tracks)
  render_track_at-read_all x m {tracks} i {t} lib content {c} {w} dest has plain found at_i made
        right coherent some_bytes =
      let d = apply_defaults opts in
      let (hp, hf, _) = apply_defaults_positive opts in
      let f = new_track_file (join dir x) t in
      let right' : content f.source_path f.entry.track_idx ≡ some w =
        unfold new_track_file in right in
      let same : file abs read_file d.play_ms d.fade_ms fuse n dir es x m tracks t ≡ f =
        rw plain refl in
      let (child, read, _) =
        populate-read abs read_file d.play_ms d.fade_ms fuse n dir es hp hf x m tracks t has found
          (get-Among tracks i at_i) lib content {w = w} dest (rw same made) (rw same right')
          coherent some_bytes in
      (
        _,
        render_track_at-render_track abs read_file lib (join dir x) opts i found at_i made,
        f,
        rw same at child,
        rw same at read,
        unfold new_track_file in refl,
        unfold new_track_file in refl,
        unfold new_track_file in refl,
        refl,
      )
