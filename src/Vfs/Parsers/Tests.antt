-- ===== src/Vfs/Parsers/Tests.antt =====
-- Runs of the choice of a parser in internal/vfs/vfs.go, and the theorem on albums.
use chipfs.Base.{
  ◌≡◌, ◌≢◌, inl, min, Begins, reverse_bytes, refl, List, [], ◌∷◌, ◌++◌, length, replicate, arith,
  get_elem?, Option, some, Bytes, text, trim_space, pos, Result, ok, false,
}
use chipfs.Formats.{equal, slice, byte_at}
use chipfs.Formats.Nsf
use chipfs.Formats.Nsf.Chunks.{nsfe_file}
use chipfs.Formats.Samples.{clean}
use chipfs.Formats.Nsf.Written.{Song, written}
use chipfs.Formats.Nsf.Tests
use chipfs.Formats.Nsf.Tests.{songs-IsSong, chunks-IsChunk}
use chipfs.Gme.{chipfs_set_fade, open_emu, start_track, set_fade, check}
use chipfs.Formats.Nsf.{int32}
use chipfs.Vfs.{Options, TrackEntry, apply_defaults}
use chipfs.Vfs.Names.{clean_tag}
use chipfs.Vfs.Names.Tidy.{IsTidy, IsName}
use chipfs.Vfs.Tracks.Named.{IsTitled}
use chipfs.Vfs.Render.{new_track_file, render_track, set_up}
use chipfs.Vfs.Render.Track.{render_track_total}
use chipfs.Vfs.Tests.{counting, plays}
use chipfs.Vfs.Tracks.{
  ChipFile, blank_track, parse_nsf, nsf_tracks, build_entry, build_entries, track_list,
}
use chipfs.Vfs.Parsers.{
  nsf, ext_back, reversed, lower, chip_parsers, dir_back, base_back, spc_album, parse_as,
  build_track_list,
}
use chipfs.Vfs.Parsers.Album.{IsNsfe, build_track_list-written}

-- The working directory of the runs.
abbrev pub abs : Bytes → Option Bytes
abs path = some (text "/music/" ++ path)

album : spc_album abs (text "Zelda 3/01.spc") ≡ text "Zelda 3"
unfolding spc_album base_back dir_back reversed clean_tag trim_space equal
album = refl

root_file : spc_album (λ path. some path) (text "/01.spc") ≡ []
unfolding spc_album base_back dir_back reversed clean_tag trim_space equal
root_file = refl

upper_case : lower (ext_back (reversed (text "/a.b/Game.NSFe") []) []) ≡ text ".nsfe"
unfolding lower ext_back reversed
upper_case = refl

-- A disk with one NSFe file of one track.
abbrev pub disk : Bytes → Result Bytes Bytes
disk path = ok (nsfe_file ((text "INFO", 0 ∷ 128 ∷ 0 ∷ 128 ∷ 0 ∷ 128 ∷ 0 ∷ 0 ∷ 1 ∷ []) ∷ []) 0 [])

abbrev one_track : ChipFile
one_track = record { album = []; artist = []; tracks = blank_track ∷ []; single_track = false }

abbrev flags : Options
flags = record { default_play_ms = pos 0; default_fade_ms = pos 0; cache_bytes = pos 0 }

abbrev pub tracks : List TrackEntry
tracks = track_list one_track 180000 8000

abbrev pub first : TrackEntry
first = build_entry one_track 180000 8000 0 blank_track

pub listed :
    build_track_list abs disk
      (text "game.nsfe")
      (apply_defaults flags).play_ms
      (apply_defaults flags).fade_ms
    ≡ some tracks
unfolding build_track_list apply_defaults chip_parsers lower ext_back reversed equal parse_as
    parse_nsf Nsf.parse Nsf.parse_nsfe Nsf.chunks Nsf.uint32_at slice Nsf.apply_chunk Nsf.apply_info
    byte_at Nsf.finish Nsf.remap nsf_tracks
listed = refl

pub first_listed : get_elem? tracks 0 ≡ some first
unfolding track_list build_entries
first_listed = refl

pub ready :
    set_up counting disk (new_track_file (text "game.nsfe") first)
    ≡ ok (record { handle = 0; sample_rate = 44100 })
unfolding set_up new_track_file open_emu start_track set_fade check build_entry chipfs_set_fade
ready = refl

abbrev pub rendered :
    (w : Bytes) × (render_track counting disk (new_track_file (text "game.nsfe") first) ≡ ok w)
rendered = render_track_total counting disk (new_track_file (text "game.nsfe") first) ready plays

-- A disk with the album of the NSFe tests.
abbrev pub album_file : Bytes
album_file = nsfe_file (written (replicate 8 0) [] Nsf.Tests.album) 0 []

pub album_file-IsNsfe : IsNsfe album_file Nsf.Tests.album
album_file-IsNsfe = record {
  addresses = replicate 8 0;
  program = [];
  end_size = 0;
  behind = [];
  layout = refl;
  small = omega arith;
  addressed = refl;
  clean_title = clean (text "Game") refl;
  clean_artist = clean (text "Somebody") refl;
  clean_copyright = clean (text "1990") refl;
  songs = songs-IsSong;
  chunks = chunks-IsChunk;
}

named_nsfe : chip_parsers (lower (ext_back (reversed (text "a.NSFe") []) [])) ≡ some nsf
unfolding chip_parsers lower ext_back reversed equal
named_nsfe = refl

abbrev pub stage : Song
stage = record { title = text "Stage"; duration_bits = 60000; fade_bits = 4294967295 }

pub tidy :
    (s : Bytes) → Begins s → Begins (reverse_bytes s) → s ≢ text "?" → s ≢ text "<?>" → IsTidy s
tidy s front back known known_nsfe = record {
  front = front;
  back = back;
  known = known;
  known_nsfe = known_nsfe;
}

pub stage-IsName : IsName (text "Stage")
stage-IsName = record {
  tidy = tidy (text "Stage") (omega arith) (omega arith) (λ e. cc e) (λ e. cc e);
  some_text = λ e. cc e;
  ascii = omega arith;
  plain = ground arith;
  not_dot = λ e. cc e;
  not_dots = λ e. cc e;
}

pub game-IsTidy : IsTidy (text "Game")
game-IsTidy = tidy (text "Game") (omega arith) (omega arith) (λ e. cc e) (λ e. cc e)

pub somebody-IsTidy : IsTidy (text "Somebody")
somebody-IsTidy = tidy (text "Somebody") (omega arith) (omega arith) (λ e. cc e) (λ e. cc e)

build_track_list-written_example :
    (tracks : List TrackEntry) × (build_track_list abs
        (λ path. ok album_file)
        (text "a.NSFe")
        180000
        8000
      ≡ some tracks)
    × (length tracks ≡ 2)
    × (t : TrackEntry) × (get_elem? tracks 0 ≡ some t)
    × (t.track_idx ≡ 0)
    × IsTitled 0 (text "Stage") t.opts.metadata.title t.filename
    × (t.opts.metadata.artist ≡ text "Somebody")
    × (t.opts.metadata.album ≡ text "Game")
    × (t.opts.metadata.track ≡ 1)
    × (t.play_ms ≡ min 60000 1200000)
    × (t.fade_ms ≡ min 8000 60000)
unfolding int32
build_track_list-written_example =
    build_track_list-written abs (λ path. ok album_file) (text "a.NSFe") 180000 8000 0 {s = stage}
      named_nsfe refl album_file-IsNsfe refl (inl stage-IsName) somebody-IsTidy game-IsTidy
