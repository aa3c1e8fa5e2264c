-- ===== src/Vfs/Tracks/Entries.antt =====
-- The track list of internal/vfs/vfs.go: every entry can be rendered as promised, under a name
-- that is safe.
use chipfs.Base.{
  ℕ, zero, suc, ◌+◌, ◌≤◌, ◌<◌, ◌≡◌, ◌≢◌, refl, sym, ap, ◌∙◌, List, [], ◌∷◌, Bool, true, false, ltb,
  if◌then◌else◌, length, get_elem?, All, All-append, Bytes, some, text, itoa, itoa-IsDigit, Result,
  ok, arith, first_ok,
}
use chipfs.Formats.Nsf
use chipfs.Vfs.{TrackEntry, max_play_ms, max_fade_ms}
use chipfs.Vfs.Durations.{clamp_ms_range}
use chipfs.Vfs.Names.{sanitize_filename}
use chipfs.Vfs.Names.Sanitized.{IsPlain, sanitize_filename-IsPlain}
use chipfs.Vfs.Tracks.{
  ChipTrack, ChipFile, nsf_tracks, parse_nsf, two_digits, title_of, filename_of, build_entry,
  build_entries, track_list,
}

-- What a client may rely on of the entry with the index `i`.
pub record IsServable (i : ℕ) (t : TrackEntry) : Type 0 where
  pub index : t.track_idx ≡ i
  pub number : t.opts.metadata.track ≡ suc i
  pub some_play : 0 < t.play_ms
  pub some_fade : 0 < t.fade_ms
  pub play_within : t.play_ms ≤ max_play_ms
  pub fade_within : t.fade_ms ≤ max_fade_ms
  pub plain_name : All IsPlain t.filename
  pub titled : t.opts.metadata.title ≢ []

digits-All : (s : Bytes) → All (λ d. (48 ≤ d) × (d < 58)) s → All IsPlain s
digits-All [] h = tt
digits-All (d ∷ s) h = (ground arith, digits-All s h.1)

two_digits-All : (n : ℕ) → All IsPlain (two_digits n)
unfolding two_digits
two_digits-All n = let digits = digits-All (itoa n) (itoa-IsDigit n) in choose (ltb n 10) digits
  where
    choose : (b : Bool) → All IsPlain (itoa n) → All IsPlain (if b then 48 ∷ itoa n else itoa n)
    choose true h = (ground arith, h)
    choose false h = h

filename_of-All : (single : Bool) (title : Bytes) (i : ℕ) → All IsPlain (filename_of single title i)
unfolding filename_of
filename_of-All true title i =
    All-append IsPlain (sanitize_filename (title_of title i)) (text ".wav")
      (sanitize_filename-IsPlain (title_of title i)).0 (ground arith)
filename_of-All false [] i =
    All-append IsPlain (text "Track_") _ (ground arith) (
      All-append IsPlain (two_digits (suc i)) (text ".wav") (two_digits-All (suc i)) (ground arith))
filename_of-All false (c ∷ title) i =
    All-append IsPlain (two_digits (suc i)) _ (two_digits-All (suc i)) (
      All-append IsPlain (text " - ") _ (ground arith) (
        All-append IsPlain (sanitize_filename (c ∷ title)) (text ".wav")
          (sanitize_filename-IsPlain (c ∷ title)).0 (ground arith)))

title_of-ne-nil : (title : Bytes) (i : ℕ) → title_of title i ≢ []
unfolding title_of
title_of-ne-nil [] i = λ e. cc
title_of-ne-nil (c ∷ title) i = λ e. cc

pub length-build_entries :
    (cf : ChipFile) (default_play_ms default_fade_ms start : ℕ) (tracks : List ChipTrack)
    → length (build_entries cf default_play_ms default_fade_ms start tracks) ≡ length tracks
unfolding build_entries
length-build_entries cf default_play_ms default_fade_ms start [] = refl
length-build_entries cf default_play_ms default_fade_ms start (t ∷ tracks) =
    ap suc (length-build_entries cf default_play_ms default_fade_ms (suc start) tracks)

module _ (cf : ChipFile) (default_play_ms default_fade_ms : ℕ) (some_play : 0 < default_play_ms)
    (some_fade : 0 < default_fade_ms) where
  build_entry-IsServable :
      (i : ℕ) (t : ChipTrack) → IsServable i (build_entry cf default_play_ms default_fade_ms i t)
  unfolding build_entry
  build_entry-IsServable i t =
      let (p_pos, p_max) =
        clamp_ms_range t.play_ms default_play_ms max_play_ms some_play (omega arith) in
      let (f_pos, f_max) =
        clamp_ms_range t.fade_ms default_fade_ms max_fade_ms some_fade (omega arith) in
      record {
        index = refl;
        number = refl;
        some_play = p_pos;
        some_fade = f_pos;
        play_within = p_max;
        fade_within = f_max;
        plain_name = filename_of-All cf.single_track _ i;
        titled = title_of-ne-nil _ i;
      }

  build_entries-get :
      (start i : ℕ) (tracks : List ChipTrack)
      → i < length tracks
      → (t : TrackEntry) × (get_elem?
            (build_entries cf default_play_ms default_fade_ms start tracks)
            i
          ≡ some t)
        × IsServable (start + i) t
  unfolding build_entries
  build_entries-get start i [] h = absurd (omega arith)
  build_entries-get start zero (t ∷ tracks) h =
      let same : start + 0 ≡ start = omega arith in
      (_, refl, rw same (build_entry-IsServable start t))
  build_entries-get start (suc i) (t ∷ tracks) h =
      let same : suc start + i ≡ start + suc i = omega arith in
      let (found, at_i, fine) = build_entries-get (suc start) i tracks (omega arith) in
      (found, at_i, rw (sym same) fine)

  -- The track list has one entry for every track of the file. With defaults that are positive,
  -- the entry at each place carries that place as its index and number, a positive play and fade
  -- time within the limits of a render, a title, and a file name without a separator, a colon or
  -- a control character.
  pub track_list-IsServable :
      (length (track_list cf default_play_ms default_fade_ms) ≡ length cf.tracks)
      × ((i : ℕ)
          → i < length cf.tracks
          → (t : TrackEntry) × (get_elem? (track_list cf default_play_ms default_fade_ms) i
              ≡ some t)
            × IsServable i t)
  unfolding track_list
  track_list-IsServable = (
    length-build_entries cf default_play_ms default_fade_ms 0 cf.tracks,
    λ i h.
        let (t, at_i, fine) = build_entries-get 0 i cf.tracks h in
        let same : 0 + i ≡ i = omega arith in (t, at_i, rw (sym same) fine),
  )

length-nsf_tracks : (n : ℕ) (infos : List Nsf.TrackInfo) → length (nsf_tracks n infos) ≡ n
unfolding nsf_tracks
length-nsf_tracks zero infos = refl
length-nsf_tracks (suc n) [] = ap suc (length-nsf_tracks n [])
length-nsf_tracks (suc n) (t ∷ infos) = ap suc (length-nsf_tracks n infos)

pub ok_injective : {E A : Type 0} {a b : A} → ◌≡◌ {A = Result E A} (ok a) (ok b) → a ≡ b
ok_injective h = cc

-- A parsed NSF or NSFe file has the album and the artist of its header, and as many tracks as the
-- header counts, whether or not there is something known of each track.
pub parse_nsf-track_count :
    (bytes : Bytes) {cf : ChipFile}
    → parse_nsf bytes ≡ ok cf
    → (h : Nsf.Header) × (Nsf.parse bytes ≡ ok h)
      × (length cf.tracks ≡ h.track_count)
      × (cf.album ≡ h.title)
      × (cf.artist ≡ h.artist)
unfolding parse_nsf
parse_nsf-track_count bytes {cf} e =
    let (h, parsed, made) = first_ok (Nsf.parse bytes) _ e in
    let same = sym (ok_injective made) in
    (
      h,
      parsed,
      ap (λ (z : ChipFile). length z.tracks) same ∙ length-nsf_tracks h.track_count h.tracks,
      ap (λ (z : ChipFile). z.album) same,
      ap (λ (z : ChipFile). z.artist) same,
    )
