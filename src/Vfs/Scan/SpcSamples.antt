-- ===== src/Vfs/Scan/SpcSamples.antt =====
-- A directory with an SPC file, mounted and read by a client.
use chipfs.Base.{
  ℕ, ◌≡◌, refl, inl, List, [], ◌∷◌, ◌++◌, true, replicate, Option, some, none, Bytes, text, pos,
  Result, ok, arith,
}
use chipfs.Cache
use chipfs.Formats.{equal}
use chipfs.Formats.Spc
use chipfs.Formats.Spc.Layout.{spc_file, with_texts}
use chipfs.Formats.Spc.Tests.{
  texts, front, front-IsFront, author-IsNullPadded, seconds-IsNullPadded, fade-IsNullPadded,
}
use chipfs.Formats.Spc.Written.{IsSpc, text_form}
use chipfs.Gme.{chipfs_set_fade, open_emu, start_track, set_fade, check}
use chipfs.Vfs.{Options, apply_defaults, TrackEntry}
use chipfs.Vfs.Nodes.{source_dir, track_file}
use chipfs.Vfs.Scan.ToolSpc.{render_track_at_spc}
use chipfs.Vfs.Parsers.{
  RenderedTrack, build_track_list, render_track_at, spc, chip_parsers, lower, ext_back, reversed,
}
use chipfs.Vfs.Paths.{clean, join}
use chipfs.Vfs.Render.{TrackFile, new_track_file, render_track, set_up}
use chipfs.Vfs.Render.Track.{render_track_total}
use chipfs.Vfs.Tests.{counting, plays}
use chipfs.Vfs.Tracks.{build_entry}
use chipfs.Vfs.Scan.{PendingChip, Entries, nil, entry, regular, is_spc_name, with_artist}
use chipfs.Vfs.Scan.Memory.{memory, child}
use chipfs.Vfs.Scan.Mounted.{tracks_of, artist, chip}
use chipfs.Vfs.Scan.Pending.{folder_of}
use chipfs.Vfs.Scan.SpcTrack.{spc_entry, build_track_list-IsSpc}

abbrev abs : Bytes → Option Bytes
abs path = some path

abbrev header : Spc.Header
header = record (with_texts texts) {
  play_duration_ms = pos 95000;
  fade_duration_ms = pos 7000;
  artist = text "Author";
}

abbrev spc_bytes : Bytes
spc_bytes = spc_file (front 0) (
    (text "95" ++ 0 ∷ [])
    ∷ (text "7000" ++ 0 ∷ [])
    ∷ (text "Author" ++ replicate 26 0)
    ∷ replicate 9 0
    ∷ [])

spc_bytes-IsSpc : IsSpc spc_bytes header
spc_bytes-IsSpc =
    text_form 95 7000 (replicate 9 0) (front-IsFront 0) seconds-IsNullPadded fade-IsNullPadded
      author-IsNullPadded (omega arith)

abbrev disk : Bytes → Result Bytes Bytes
disk path = ok spc_bytes

abbrev listing : Entries
listing = entry (text "a.spc") (some 9) regular nil

named :
    chip_parsers (lower (ext_back (reversed (join (text "/m") (text "a.spc")) []) [])) ≡ some spc
unfolding chip_parsers lower ext_back reversed equal join clean
named = refl

is_spc : is_spc_name (text "a.spc") ≡ true
unfolding is_spc_name lower ext_back reversed equal
is_spc = refl

abbrev credit : Bytes
credit = artist abs disk 180000 8000 memory (source_dir none) (text "/m") listing

abbrev path : Bytes
path = join (text "/m") (text "a.spc")

abbrev shown : TrackFile
shown = new_track_file path (with_artist credit (spc_entry abs path header 180000 8000))

ready : set_up counting disk shown ≡ ok (record { handle = 0; sample_rate = 44100 })
unfolding set_up new_track_file open_emu start_track set_fade check build_entry chipfs_set_fade
ready = refl

abbrev rendered : (w : Bytes) × (render_track counting disk shown ≡ ok w)
rendered = render_track_total counting disk shown ready plays

abbrev content : List ℕ → ℕ → Option Bytes
content p index = some rendered.0

abbrev the_chip : PendingChip
the_chip =
    chip abs disk 180000 8000 memory (source_dir none) (text "/m") listing (text "a.spc") (some 9)
      (spc_entry abs path header 180000 8000 ∷ [])

abbrev parsed : Bytes → Option (List TrackEntry)
parsed = tracks_of abs disk 180000 8000 memory (source_dir none) (text "/m") listing

abbrev flags : Options
flags = record { default_play_ms = pos 0; default_fade_ms = pos 0; cache_bytes = pos 0 }

-- The track as it is listed, without an album artist
abbrev listed_track : TrackEntry
listed_track = spc_entry abs path header 180000 8000

listed :
    build_track_list abs disk path (apply_defaults flags).play_ms (apply_defaults flags).fade_ms
    ≡ some (listed_track ∷ [])
unfolding apply_defaults
listed = build_track_list-IsSpc abs disk path 180000 8000 named refl spc_bytes-IsSpc

tool_ready :
    set_up counting disk (new_track_file path listed_track)
    ≡ ok (record { handle = 0; sample_rate = 44100 })
unfolding set_up new_track_file open_emu start_track set_fade check build_entry chipfs_set_fade
tool_ready = refl

abbrev tool_rendered :
    (w : Bytes) × (render_track counting disk (new_track_file path listed_track) ≡ ok w)
tool_rendered = render_track_total counting disk (new_track_file path listed_track) tool_ready plays

render_track_at_spc_example :
    (out : RenderedTrack) × (render_track_at abs disk counting path 0 (pos 0) (pos 0) flags
      ≡ ok out)
    × (f : TrackFile) × (child (folder_of memory credit the_chip) out.filename
        ≡ some (memory.inode (track_file (some 9) f)))
    × (out.play_ms ≡ f.entry.play_ms)
    × (out.fade_ms ≡ f.entry.fade_ms)
    × (out.metadata.album_artist ≡ [])
    × (f.entry.opts.metadata ≡ record (out.metadata) { album_artist = credit })
unfolding apply_defaults
render_track_at_spc_example =
    render_track_at_spc abs disk flags memory (source_dir none) (text "/m") listing (text "a.spc")
      (some 9) {tracks = listed_track ∷ []} 0 {t = listed_track} counting {w = tool_rendered.0}
      (inl (refl, refl, refl)) is_spc listed refl tool_rendered.1
