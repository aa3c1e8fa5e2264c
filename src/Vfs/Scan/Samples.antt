-- ===== src/Vfs/Scan/Samples.antt =====
-- A directory with the file of an album, mounted and read by a client.
use chipfs.Base.{
  ℕ, suc, ◌≡◌, min, refl, inl, List, [], false, length, Option, some, none, Bytes, text, pos,
  Result, ok, arith,
}
use chipfs.Cache
use chipfs.Cache.{new}
use chipfs.Cache.Invariant.{new-IsValid}
use chipfs.Formats.{equal}
use chipfs.Formats.Nsf.{int32}
use chipfs.Formats.Nsf.Tests.{album}
use chipfs.Gme.{chipfs_set_fade, open_emu, start_track, set_fade, check}
use chipfs.Vfs.Nodes.{source_dir, track_file, track_file_getattr}
use chipfs.Vfs.{Options, TrackEntry, apply_defaults}
use chipfs.Vfs.Scan.Tool.{render_track_at-read_all}
use chipfs.Vfs.Parsers.{
  RenderedTrack, build_track_list, render_track_at, nsf, chip_parsers, lower, ext_back, reversed,
}
use chipfs.Vfs.Parsers.Album.{chip_file, build_track_list-IsNsfe}
use chipfs.Vfs.Parsers.Tests.{
  album_file, album_file-IsNsfe, stage, stage-IsName, game-IsTidy, somebody-IsTidy,
}
use chipfs.Vfs.Paths.{clean, join}
use chipfs.Vfs.Tracks.Named.{IsTitled}
use chipfs.Vfs.Render.{TrackFile, new_track_file, render_track, set_up}
use chipfs.Vfs.Render.Track.{render_track_total}
use chipfs.Vfs.Store.Coherent.{IsCoherent}
use chipfs.Vfs.Store.Reader.{read_all}
use chipfs.Vfs.Tests.{counting, plays}
use chipfs.Vfs.Tracks.{build_entry, track_list}
use chipfs.Vfs.Scan.{PendingChip, Entries, nil, entry, regular, is_spc_name}
use chipfs.Vfs.Scan.Album.{song_entry, track_list-get, read_all-song}
use chipfs.Vfs.Scan.Contents.{folder}
use chipfs.Vfs.Scan.Memory.{memory, child}
use chipfs.Vfs.Scan.Mounted.{tracks_of, artist, chip, blank}
use chipfs.Vfs.Scan.Pending.{folder_of, IsListed}

abbrev abs : Bytes → Option Bytes
abs path = some path

abbrev disk : Bytes → Result Bytes Bytes
disk path = ok album_file

abbrev listing : Entries
listing = entry (text "a.nsfe") (some 9) regular nil

named :
    chip_parsers (lower (ext_back (reversed (join (text "/m") (text "a.nsfe")) []) [])) ≡ some nsf
unfolding chip_parsers lower ext_back reversed equal join clean
named = refl

plain : is_spc_name (text "a.nsfe") ≡ false
unfolding is_spc_name lower ext_back reversed equal
plain = refl

-- The song that is played first
abbrev shown : TrackFile
shown = new_track_file (join (text "/m") (text "a.nsfe")) (song_entry album 180000 8000 0 stage)

ready : set_up counting disk shown ≡ ok (record { handle = 0; sample_rate = 44100 })
unfolding set_up new_track_file open_emu start_track set_fade check build_entry chipfs_set_fade
ready = refl

abbrev rendered : (w : Bytes) × (render_track counting disk shown ≡ ok w)
rendered = render_track_total counting disk shown ready plays

abbrev content : List ℕ → ℕ → Option Bytes
content path index = some rendered.0

cold-IsCoherent : IsCoherent content (new 1000)
cold-IsCoherent = record {
  valid = new-IsValid 1000;
  faithful = λ path index bytes missing. absurd (unfold new Cache.get in (cc missing));
}

abbrev credit : Bytes
credit = artist abs disk 180000 8000 memory (source_dir none) (text "/m") listing

abbrev pending : PendingChip
pending =
    chip abs disk 180000 8000 memory (source_dir none) (text "/m") listing (text "a.nsfe") (some 9)
      (track_list (chip_file album) 180000 8000)

read_all-song_example :
    IsListed memory credit
      (folder memory
        (tracks_of abs disk 180000 8000 memory (source_dir none) (text "/m") listing)
        (text "/m")
        (source_dir none)
        listing)
      pending
    × (f : TrackFile) × (name : Bytes) × IsTitled 0 (text "Stage") f.entry.opts.metadata.title name
    × (child (folder_of memory credit pending) name ≡ some (memory.inode (track_file (some 9) f)))
    × (f.entry.track_idx ≡ 0)
    × (f.entry.opts.metadata.artist ≡ text "Somebody")
    × (f.entry.opts.metadata.album ≡ text "Game")
    × (f.entry.opts.metadata.album_artist ≡ [])
    × (f.entry.opts.metadata.track ≡ 1)
    × (f.entry.play_ms ≡ min 60000 1200000)
    × (f.entry.fade_ms ≡ min 8000 60000)
    × (read_all counting disk (suc (length rendered.0)) (new 1000) f 512 0 ≡ some rendered.0)
    × (length rendered.0 ≡ (track_file_getattr (some 9) f blank).size)
unfolding int32
read_all-song_example =
    read_all-song abs disk 180000 8000 memory (source_dir none) (text "/m") listing (text "a.nsfe")
      (some 9) 0 {s = stage} counting content {w = rendered.0} 512 (omega arith) (omega arith)
      (inl (refl, refl, refl)) named plain refl album_file-IsNsfe refl (inl stage-IsName)
      somebody-IsTidy game-IsTidy rendered.1 refl cold-IsCoherent (omega arith)

abbrev flags : Options
flags = record { default_play_ms = pos 0; default_fade_ms = pos 0; cache_bytes = pos 0 }

abbrev path : Bytes
path = join (text "/m") (text "a.nsfe")

abbrev tracks : List TrackEntry
tracks = track_list (chip_file album) 180000 8000

listed :
    build_track_list abs disk path (apply_defaults flags).play_ms (apply_defaults flags).fade_ms
    ≡ some tracks
unfolding apply_defaults
listed = build_track_list-IsNsfe abs disk path 180000 8000 named refl album_file-IsNsfe

render_track_at-read_all_example :
    (out : RenderedTrack) × (render_track_at abs disk counting path 0 (pos 0) (pos 0) flags
      ≡ ok out)
    × (f : TrackFile) × (child (folder_of memory credit pending) out.filename
        ≡ some (memory.inode (track_file (some 9) f)))
    × (read_all counting disk (suc (length rendered.0)) (new 1000) f 512 0 ≡ some out.wav)
    × (out.play_ms ≡ f.entry.play_ms)
    × (out.fade_ms ≡ f.entry.fade_ms)
    × (out.metadata ≡ f.entry.opts.metadata)
    × (out.track_count ≡ length tracks)
unfolding apply_defaults
render_track_at-read_all_example =
    render_track_at-read_all abs disk flags memory (source_dir none) (text "/m") listing
      (text "a.nsfe") (some 9) {tracks = tracks} 0 counting content {w = rendered.0} 512
      (inl (refl, refl, refl)) plain listed (track_list-get album 180000 8000 0 {s = stage} refl)
      rendered.1 refl cold-IsCoherent (omega arith)
