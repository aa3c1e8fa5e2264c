-- ===== src/Wav/Tests.antt =====
-- Runs of internal/wav/muxer.go, and the theorems at a small track.
use chipfs.Base.{Bytes, ℕ, suc, ◌≡◌, refl, List, [], ◌∷◌, ◌++◌, length, text, itoa, arith, some}
use chipfs.Wav.{
  info_field, info_subchunk, Options, sample_count, build_id3v2, info_fields, header, encode,
  text_frame,
}
use chipfs.Wav.Layout.{fmt_payload}
use chipfs.Wav.Reader.{read_samples, riff_file, id3_file, riff_chunks}
use chipfs.Wav.Tags.{id3_metadata, info_metadata, id3_file-build_id3v2, riff_chunks-info_fields}
use chipfs.Wav.Riff.{list_chunks, riff_file-encode}

abbrev song : Options
song = record {
  sample_rate = 44100;
  channels = 2;
  metadata = record {
    title = text "Flash Man";
    artist = text "Tateishi";
    album = text "Mega Man 2";
    album_artist = [];
    track = 12;
  };
}

program : Unit {0}
unfolding encode text_frame info_field info_subchunk itoa id3_metadata
program = tt

-- Three minutes and eight seconds.
default_samples : sample_count 188000 song ≡ 16581600
unfolding sample_count
default_samples = refl

bare :
    header 8 (record song {
      metadata = record { title = []; artist = []; album = []; album_artist = []; track = 0 };
    })
    ≡ text "RIFF"
      ++ (62 ∷ 0 ∷ 0 ∷ 0 ∷ [])
      ++ text "WAVEfmt "
      ++ (16 ∷ 0 ∷ 0 ∷ 0 ∷ 1 ∷ 0 ∷ 2 ∷ 0 ∷ 68 ∷ 172 ∷ 0 ∷ 0 ∷ 16 ∷ 177 ∷ 2 ∷ 0 ∷ 4 ∷ 0 ∷ 16 ∷ 0
          ∷ [])
      ++ text "id3 "
      ++ (10 ∷ 0 ∷ 0 ∷ 0 ∷ [])
      ++ text "ID3"
      ++ (4 ∷ 0 ∷ 0 ∷ 0 ∷ 0 ∷ 0 ∷ 0 ∷ [])
      ++ text "data"
      ++ (8 ∷ 0 ∷ 0 ∷ 0 ∷ [])
unfolding program
bare = refl

track_number :
    id3_metadata song.metadata
    ≡ (text "TIT2", 3 ∷ text "Flash Man")
      ∷ (text "TPE1", 3 ∷ text "Tateishi")
      ∷ (text "TALB", 3 ∷ text "Mega Man 2")
      ∷ (text "TRCK", 3 ∷ text "12")
      ∷ []
unfolding program
track_number = refl

id3_file-build_id3v2_example :
    id3_file (build_id3v2 song.metadata) ≡ some (id3_metadata song.metadata)
unfolding program
id3_file-build_id3v2_example = id3_file-build_id3v2 song.metadata (omega arith)

riff_chunks-info_fields_example :
    riff_chunks (suc (length (info_fields song.metadata))) (info_fields song.metadata)
    ≡ some (info_metadata song.metadata)
riff_chunks-info_fields_example =
    riff_chunks-info_fields song.metadata (omega arith) (omega arith) (omega arith)

abbrev samples : List ℕ
samples = 0 ∷ 65535 ∷ 1 ∷ 32768 ∷ []

riff_file-encode_example :
    (payload : Bytes) × (riff_file (encode samples song)
      ≡ some (
          (text "fmt ", fmt_payload song)
          ∷ (text "id3 ", build_id3v2 song.metadata)
          ∷ (list_chunks song.metadata ++ (text "data", payload) ∷ [])))
    × (read_samples payload ≡ some samples)
unfolding program
riff_file-encode_example = riff_file-encode samples song (omega arith) (omega arith)
