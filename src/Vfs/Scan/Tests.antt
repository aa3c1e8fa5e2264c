-- ===== src/Vfs/Scan/Tests.antt =====
-- Runs of `populate` in internal/vfs/vfs.go on a small directory, and the theorems there.
use chipfs.Base.{
  ℕ, suc, ◌≡◌, ◌⊎◌, inl, inr, refl, List, [], ◌∷◌, length, false, Option, none, some, Bytes, text,
  itoa, trim_space, Result, ok, arith,
}
use chipfs.Formats.{equal, slice, byte_at}
use chipfs.Formats.Nsf
use chipfs.Formats.Nsf.Chunks.{nsfe_file}
use chipfs.Cache
use chipfs.Cache.{new}
use chipfs.Cache.Invariant.{new-IsValid}
use chipfs.Gme.{chipfs_set_fade, open_emu, start_track, set_fade, check}
use chipfs.Vfs.Tests.{counting, plays}
use chipfs.Vfs.Store.Coherent.{IsCoherent}
use chipfs.Vfs.Store.Reader.{read_all}
use chipfs.Vfs.Render.Track.{render_track_total}
use chipfs.Vfs.{TrackEntry, clamp_ms}
use chipfs.Vfs.Names.{clean_tag, count, less, most_common_loop, most_common}
use chipfs.Vfs.Nodes.{source_dir, real_file, track_file, track_file_getattr}
use chipfs.Vfs.Parsers.{ext_back, reversed, lower, chip_parsers, parse_as, build_track_list}
use chipfs.Vfs.Paths.{clean, join}
use chipfs.Vfs.Render.{TrackFile, new_track_file, render_track, set_up}
use chipfs.Vfs.Tracks.{
  ChipFile, blank_track, parse_nsf, nsf_tracks, two_digits, title_of, filename_of, build_entry,
  build_entries, track_list,
}
use chipfs.Vfs.Tracks.Distinct.{AllDistinct, track_list-AllDistinct}
use chipfs.Vfs.Scan.{
  PendingChip, entries, Entries, nil, entry, directory, regular, special, fallback_of, is_spc_name,
  with_album_artist, populate, add_chip_dir, add_pending, chip_inode, add_tracks,
}
use chipfs.Vfs.Scan.Contents.{folder, album_artist, populate-shown, populate-source}
use chipfs.Vfs.Scan.Listing.{IsDistinct, IsEntry}
use chipfs.Vfs.Scan.Memory.{memory, Inode, child}
use chipfs.Vfs.Scan.Mounted.{populate-track_file, read_all-populate, artist, chip, file, blank}
use chipfs.Vfs.Scan.Pending.{Among, folder_of, IsNameOf, IsListed}
use chipfs.Vfs.Scan.Recognized.{chip_of, IsRecognized}

cleaned :
    (join (text "/music/./a//b/../") (text "x.nsf") ≡ text "/music/a/x.nsf")
    × (clean (text "../..") ≡ text "../..")
    × (clean (text "a/..") ≡ text ".")
unfolding join clean equal
cleaned = (refl, refl, refl)

-- A disk on which every file is an NSFe file of two tracks.
abbrev disk : Bytes → Result Bytes Bytes
disk path = ok (nsfe_file ((text "INFO", 0 ∷ 128 ∷ 0 ∷ 128 ∷ 0 ∷ 128 ∷ 0 ∷ 0 ∷ 2 ∷ []) ∷ []) 0 [])

abbrev abs : Bytes → Option Bytes
abs path = some path

abbrev two_tracks : ChipFile
two_tracks = record {
  album = [];
  artist = [];
  tracks = blank_track ∷ blank_track ∷ [];
  single_track = false;
}

abbrev tracks : List TrackEntry
tracks = track_list two_tracks 180000 8000

abbrev tracks_of : Bytes → Option (List TrackEntry)
tracks_of path = build_track_list abs disk path 180000 8000

-- A real file `game`, a chiptune of that stem, a symlink, and a folder.
abbrev listing : Entries
listing = entry (text "game") (some 7) regular (
    entry (text "game.nsfe") (some 9) regular (
      entry (text "link.nsf") none special
        (entry (text "sub") (some 3) (directory (entries nil)) nil)))

abbrev mounted : Inode
mounted = folder memory tracks_of (text "/m") (source_dir none) listing

program : Unit {0}
unfolding populate add_pending add_chip_dir chip_inode add_tracks with_album_artist fallback_of
    is_spc_name ext_back reversed lower chip_parsers parse_as parse_nsf nsf_tracks build_track_list
    track_list build_entries build_entry filename_of title_of two_digits clean_tag clamp_ms equal
    trim_space itoa Nsf.parse Nsf.parse_nsfe Nsf.chunks Nsf.uint32_at slice Nsf.apply_chunk
    Nsf.apply_info byte_at Nsf.finish Nsf.remap join clean most_common_loop most_common count less
program = tt

found : tracks_of (join (text "/m") (text "game.nsfe")) ≡ some tracks
unfolding program
found = refl

-- The stem is taken by the real file, so the folder is under the fallback; the symlink is not shown.
names :
    (child mounted (text "game") ≡ some (memory.inode (real_file (text "/m/game"))))
    × (child mounted (text "link.nsf") ≡ none)
    × (child mounted (text "sub") ≡ some (memory.inode (source_dir (some 3))))
unfolding program
names = (refl, refl, refl)

fallback :
    child mounted (text "game (nsfe)")
    ≡ some (
        folder_of memory []
          (chip_of memory tracks_of (text "/m") (text "game.nsfe") (some 9) tracks))
unfolding program
fallback = refl

distinct : IsDistinct listing
distinct = (
  λ m k h. elim h [
    | inl (e, _, _) ↦ cc
    | inr g ↦ elim g [ inl (e, _, _) ↦ cc | inr f ↦ elim f [ inl (e, _, _) ↦ cc | inr z ↦ z ] ]
  ],
  (
    (λ m k h. elim h [ inl (e, _, _) ↦ cc | inr g ↦ elim g [ inl (e, _, _) ↦ cc | inr z ↦ z ] ]),
    ((λ m k h. elim h [ inl (e, _, _) ↦ cc | inr z ↦ z ]), ((λ m k h. h), tt)),
  ),
)

populate-shown_example : child mounted (text "sub") ≡ some (memory.inode (source_dir (some 3)))
unfolding program
populate-shown_example =
    populate-shown memory tracks_of (text "/m") (source_dir none) listing distinct (text "sub")
      (some 3) (directory (entries nil)) (inr (inr (inr (inl (refl, refl, refl))))) refl

populate-source_example :
    IsEntry memory tracks_of
      (text "/m")
      listing
      (text "game")
      (memory.inode (real_file (text "/m/game")))
    ⊎ ((p : PendingChip) × IsRecognized memory tracks_of (text "/m") listing p
        × IsNameOf memory
            (album_artist memory tracks_of (text "/m") (source_dir none) listing)
            (text "game")
            p
        × (memory.inode (real_file (text "/m/game"))
            ≡ folder_of memory
                (album_artist memory tracks_of (text "/m") (source_dir none) listing)
                p))
populate-source_example =
    populate-source memory tracks_of (text "/m") (source_dir none) listing (text "game")
      (memory.inode (real_file (text "/m/game"))) names.0

abbrev first : TrackEntry
first = build_entry two_tracks 180000 8000 0 blank_track

first-Among : Among first tracks
unfolding track_list build_entries
first-Among = inl refl

abbrev the_artist : Bytes
the_artist = artist abs disk 180000 8000 memory (source_dir none) (text "/m") listing

abbrev the_chip : PendingChip
the_chip =
    chip abs disk 180000 8000 memory (source_dir none) (text "/m") listing (text "game.nsfe")
      (some 9) tracks

abbrev the_file : TrackFile
the_file =
    file abs disk 180000 8000 memory (source_dir none) (text "/m") listing (text "game.nsfe")
      (some 9) tracks first

populate-track_file_example :
    IsListed memory the_artist mounted the_chip
    × (child (folder_of memory the_artist the_chip) first.filename
        ≡ some (memory.inode (track_file (some 9) the_file)))
populate-track_file_example =
    populate-track_file abs disk 180000 8000 memory (source_dir none) (text "/m") listing
      (omega arith) (omega arith) (text "game.nsfe") (some 9) tracks first
      (inr (inl (refl, refl, refl))) found first-Among

ready : set_up counting disk the_file ≡ ok (record { handle = 0; sample_rate = 44100 })
unfolding set_up new_track_file open_emu start_track set_fade check build_entry chipfs_set_fade
    is_spc_name lower ext_back reversed equal
ready = refl

abbrev rendered : (w : Bytes) × (render_track counting disk the_file ≡ ok w)
rendered = render_track_total counting disk the_file ready plays

abbrev content : List ℕ → ℕ → Option Bytes
content path index = some rendered.0

cold-IsCoherent : IsCoherent content (new 1000)
cold-IsCoherent = record {
  valid = new-IsValid 1000;
  faithful = λ path index bytes missing. absurd (unfold new Cache.get in (cc missing));
}

read_all-populate_example :
    (f : TrackFile) × (child (folder_of memory the_artist the_chip) first.filename
      ≡ some (memory.inode (track_file (some 9) f)))
    × (read_all counting disk (suc (length rendered.0)) (new 1000) f 512 0 ≡ some rendered.0)
    × (length rendered.0 ≡ (track_file_getattr (some 9) f blank).size)
read_all-populate_example =
    read_all-populate abs disk 180000 8000 memory (source_dir none) (text "/m") listing
      (omega arith) (omega arith) (text "game.nsfe") (some 9) tracks first
      (inr (inl (refl, refl, refl))) found first-Among counting content 512 rendered.1 refl
      cold-IsCoherent (omega arith)

track_list-AllDistinct_example : AllDistinct tracks
track_list-AllDistinct_example = track_list-AllDistinct two_tracks 180000 8000 refl
