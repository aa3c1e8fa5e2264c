-- ===== src/Vfs/Tests.antt =====
-- Runs of internal/vfs/vfs.go with a small library in place of libgme, and the theorems there.
use chipfs.Base.{
  false, ℕ, suc, ◌<◌, ◌≡◌, refl, ◌⊎◌, List, [], ◌∷◌, ◌++◌, true, leb, length, take, drop, replicate,
  Option, none, some, Bytes, Result, ok, err, text, pos, negsuc, arith, copy_at, itoa,
}
use chipfs.Cache
use chipfs.Cache.{Cache, new}
use chipfs.Cache.Invariant.{new-IsValid}
use chipfs.Wav
use chipfs.Wav.{sample_count, pcm}
use chipfs.Gme.{Libgme, Emu, open_emu, start_track, set_fade, play, track_ended, check}
use chipfs.Vfs.{TrackEntry, apply_defaults, fit_samples, slice_at}
use chipfs.Gme
use chipfs.Vfs.Render.{
  opening, TrackFile, new_track_file, render_samples, set_up, max_samples, expected_samples,
  render_track,
}
use chipfs.Vfs.Render.Track.{render_track-new_track_file, render_track_total}
use chipfs.Vfs.Render.Calls.{
  bytes_copied, bytes_freed, opened, started, fade_set, end_asked, played, deleted, open_calls,
  close_calls, play_calls, traced_loop, traced_session, traced_render,
}
use chipfs.Vfs.Render.Calls.Protocol
use chipfs.Vfs.Render.Calls.Closed.{traced_render-render_track}
use chipfs.Vfs.Store.{eio, read}
use chipfs.Vfs.Store.Coherent.{read-eio, IsCoherent, read-IsCoherent}
use chipfs.Vfs.Store.Reader.{read_all, read_all-drop, read_header_is_cheap}

-- A library that counts its calls of `gme_play` and ends after the third.
abbrev pub counting : Libgme
counting = record {
  Handle = ℕ;
  gme_open_data = λ bytes rate. ok 0;
  gme_track_count = λ h. 1;
  gme_start_track = λ h index. (h, none);
  has_fade_msecs = false;
  gme_set_fade_msecs = λ h start_ms fade_ms. h;
  gme_set_fade = λ h start_ms. h;
  gme_play = λ h count. (suc h, replicate count 7, none);
  gme_track_ended = λ h. leb 3 h;
}

-- A library that opens nothing.
abbrev pub refusing : Libgme
refusing = record {
  Handle = ℕ;
  gme_open_data = λ bytes rate. err (text "wrong file type");
  gme_track_count = λ h. 1;
  gme_start_track = λ h index. (h, none);
  has_fade_msecs = false;
  gme_set_fade_msecs = λ h start_ms fade_ms. h;
  gme_set_fade = λ h start_ms. h;
  gme_play = λ h count. (h, [], none);
  gme_track_ended = λ h. leb 3 h;
}

abbrev pub disk : Bytes → Result Bytes Bytes
disk path = ok path

abbrev pub song : TrackEntry
song = record {
  filename = text "Track_01.wav";
  track_idx = 0;
  play_ms = 3;
  fade_ms = 1;
  opts = record {
    sample_rate = 1000;
    channels = 2;
    metadata = record { title = []; artist = []; album = []; album_artist = []; track = 1 };
  };
}

abbrev pub file : TrackFile
file = new_track_file (text "game.gbs") song

flags :
    apply_defaults
      (record { default_play_ms = negsuc 4; default_fade_ms = pos 0; cache_bytes = pos 9 })
    ≡ record { play_ms = 180000; fade_ms = 8000; cache_bytes = 9 }
unfolding apply_defaults
flags = refl

padded : fit_samples (1 ∷ 2 ∷ []) 3 ≡ 1 ∷ 2 ∷ 0 ∷ []
unfolding fit_samples
padded = refl

middle : slice_at (1 ∷ 2 ∷ 3 ∷ 4 ∷ []) 2 1 ≡ 2 ∷ 3 ∷ []
unfolding slice_at
middle = refl

abbrev first_emu : Emu ℕ
first_emu = record { handle = 0; sample_rate = 1000 }

ready : set_up counting disk file ≡ ok first_emu
unfolding set_up new_track_file open_emu start_track set_fade check Gme.chipfs_set_fade
ready = refl

pub plays : (e : Emu ℕ) (buf : List ℕ) → (p : Emu ℕ × List ℕ) × (play counting e buf ≡ ok p)
unfolding play check
plays e [] = ((e, []), refl)
plays e (b ∷ buf) = (_, refl)

render_track_total_example : (w : Bytes) × (render_track counting disk file ≡ ok w)
render_track_total_example = render_track_total counting disk file ready plays

-- The file that the render gives.
abbrev rendered : (w : Bytes) × (render_track counting disk file ≡ ok w)
rendered = render_track_total counting disk file ready plays

render_track-new_track_file_example :
    (emu ended : Emu ℕ) × (samples : List ℕ) × (set_up counting disk file ≡ ok emu)
    × (render_samples counting (max_samples file) emu ≡ ok (ended, samples))
    × (length rendered.0 ≡ file.estimated_size)
    × (rendered.0 ≡ file.header ++ pcm (fit_samples samples (expected_samples file)))
    × ((track_ended counting ended ≡ true)
        ⊎ (fit_samples samples (expected_samples file) ≡ take (expected_samples file) samples))
render_track-new_track_file_example =
    render_track-new_track_file counting disk (text "game.gbs") song {w = rendered.0} (omega arith)
      (omega arith) rendered.1

abbrev content : List ℕ → ℕ → Option Bytes
content path index = some rendered.0

cold-IsCoherent : IsCoherent content (new 1000)
cold-IsCoherent = record {
  valid = new-IsValid 1000;
  faithful = λ path index bytes found. absurd (unfold new Cache.get in (cc found));
}

read-IsCoherent_example :
    IsCoherent content (read counting disk (new 1000) file 4096 0).0
    × (((read counting disk (new 1000) file 4096 0).1 ≡ ok (slice_at rendered.0 4096 0))
        ⊎ ((0 < length file.header)
            × ((read counting disk (new 1000) file 4096 0).1 ≡ ok (slice_at file.header 4096 0))))
read-IsCoherent_example =
    read-IsCoherent content counting disk file 4096 0 cold-IsCoherent refl rendered.1

front : (rest : Bytes) × (rendered.0 ≡ file.header ++ rest)
front =
    let (emu, ended, samples, _, _, _, layout, _) =
      render_track-new_track_file counting disk (text "game.gbs") song {w = rendered.0}
        (omega arith) (omega arith) rendered.1 in
    (pcm (fit_samples samples (expected_samples file)), layout)

read_all-drop_example :
    read_all counting disk (suc (length rendered.0)) (new 1000) file 512 0
    ≡ some (drop 0 rendered.0)
read_all-drop_example =
    read_all-drop content counting disk file front.0 512 refl rendered.1 front.1 (omega arith)
      (suc (length rendered.0)) 0 cold-IsCoherent (omega arith)

header_size : length file.header ≡ 74
unfolding new_track_file Wav.header_bytes Wav.header Wav.build_id3v2 Wav.id3_frames Wav.text_frame
    Wav.build_list_info Wav.info_fields Wav.info_field Wav.syncsafe itoa copy_at
header_size = refl

read_header_is_cheap_example :
    read counting disk (new 1000) file 16 8 ≡ read refusing disk (new 1000) file 16 8
read_header_is_cheap_example =
    read_header_is_cheap counting refusing disk disk (new 1000) file 16 8
      (omega (arith, header_size))

refused : render_track refusing disk file ≡ err (opening (Gme.gme (text "wrong file type")))
unfolding render_track set_up new_track_file open_emu
refused = refl

abbrev pub nothing : List ℕ → ℕ → Option Bytes
nothing path index = none

pub empty-IsCoherent : IsCoherent nothing (new 1000)
empty-IsCoherent = record {
  valid = new-IsValid 1000;
  faithful = λ path index bytes found. absurd (unfold new Cache.get in (cc found));
}

read-eio_example :
    IsCoherent nothing (read refusing disk (new 1000) file 4096 100).0
    × ((read refusing disk (new 1000) file 4096 100).1 ≡ err eio)
read-eio_example =
    read-eio nothing refusing disk file 4096 100 empty-IsCoherent refl refused
      (omega (arith, header_size))

calls_made :
    (traced_render counting disk file).0
    ≡ bytes_copied
      ∷ opened true
      ∷ bytes_freed
      ∷ started true
      ∷ fade_set
      ∷ end_asked
      ∷ played
      ∷ end_asked
      ∷ played
      ∷ end_asked
      ∷ played
      ∷ end_asked
      ∷ deleted
      ∷ []
unfolding traced_render open_calls traced_session traced_loop play_calls close_calls new_track_file
    open_emu start_track set_fade check Gme.chipfs_set_fade play track_ended sample_count
calls_made = refl

calls_refused :
    (traced_render refusing disk file).0 ≡ bytes_copied ∷ opened false ∷ bytes_freed ∷ []
unfolding traced_render open_calls new_track_file open_emu
calls_refused = refl

traced_render-render_track_example :
    (Protocol.run Protocol.nothing (traced_render counting disk file).0 ≡ some Protocol.nothing)
    × ((traced_render counting disk file).1 ≡ render_track counting disk file)
traced_render-render_track_example = traced_render-render_track counting disk file
