-- ===== src/Vfs/Scan/ChipFolder.antt =====
-- `ChipDir.OnAdd` in internal/vfs/vfs.go: every track has its file in the virtual folder.
use chipfs.Base.{
  ℕ, ◌≡◌, ◌≢◌, refl, sym, ap, ◌∙◌, ◌⊎◌, inl, inr, List, [], ◌∷◌, false, if◌then◌else◌, Bool-cases,
  length, map, Option, none, some, Option-cases, Bytes, Result, ok, err, arith, first_ok,
}
use chipfs.Formats.Nsf
use chipfs.Formats.Gbs
use chipfs.Vfs.{TrackEntry}
use chipfs.Vfs.Nodes.{ChipDir, chip_dir, track_file}
use chipfs.Vfs.Parsers.{Format, nsf, gbs, spc, parse_as, parse_spc, without_error, build_track_list}
use chipfs.Vfs.Render.{new_track_file}
use chipfs.Vfs.Tracks.{ChipTrack, ChipFile, parse_nsf, parse_gbs, track_list, build_entries}
use chipfs.Vfs.Tracks.Entries.{ok_injective}
use chipfs.Vfs.Tracks.Distinct.{IsUnlike, AllDistinct, track_list-AllDistinct}
use chipfs.Vfs.Scan.{Fuse, add_tracks, chip_inode, with_artist, PendingChip, with_album_artist}
use chipfs.Vfs.Scan.Folder.{IsWithin, add_child-IsWithin, add_child-source}
use chipfs.Vfs.Scan.Pending.{Among, folder_of}
use chipfs.Vfs.Parsers.Tool.{build_track_list_parsed}
use chipfs.Formats.Spc

module _ (fuse : Fuse) (d : ChipDir) where
  open fuse use {Inode, inode, child, add_child}

  abbrev pub file_of : TrackEntry → Inode
  file_of t = inode (track_file d.mtime (new_track_file d.source_path t))

  tracks_step :
      (dir : Inode) (t : TrackEntry) (ts : List TrackEntry)
      → add_tracks fuse d dir (t ∷ ts)
        ≡ add_tracks fuse d (add_child dir t.filename (file_of t)).0 ts
  unfolding add_tracks
  tracks_step dir t ts = refl

  add_tracks-IsWithin :
      (dir : Inode) (ts : List TrackEntry) → IsWithin fuse dir (add_tracks fuse d dir ts)
  add_tracks-IsWithin dir [] x c h = unfold add_tracks in h
  add_tracks-IsWithin dir (t ∷ ts) x c h = rw (tracks_step dir t ts) (
      add_tracks-IsWithin (add_child dir t.filename (file_of t)).0 ts x c
        (add_child-IsWithin fuse dir t.filename (file_of t) x c h))

  -- No file name of the tracks is taken.
  abbrev IsClear : Inode → List TrackEntry → Type 0
  IsClear dir ts = (u : TrackEntry) → Among u ts → child dir u.filename ≡ none

  unlike_Among :
      (t u : TrackEntry) (ts : List TrackEntry)
      → IsUnlike t ts
      → Among u ts
      → t.filename ≢ u.filename
  unlike_Among t u [] h m = absurd m
  unlike_Among t u (v ∷ ts) h (inl here) = λ e. h.0 (e ∙ ap (λ (z : TrackEntry). z.filename) here)
  unlike_Among t u (v ∷ ts) h (inr there) = unlike_Among t u ts h.1 there

  added-IsClear :
      (dir : Inode) (t : TrackEntry) (ts : List TrackEntry)
      → AllDistinct (t ∷ ts)
      → IsClear dir (t ∷ ts)
      → IsClear (add_child dir t.filename (file_of t)).0 ts
  added-IsClear dir t ts distinct clear u m =
      elim (Option-cases (child (add_child dir t.filename (file_of t)).0 u.filename)) [
        | inl none_there ↦ none_there
        | inr (c, found) ↦
            elim (add_child-source fuse dir t.filename (file_of t) u.filename c found) [
              | inl old ↦ absurd (cc (old, clear u (inr m)))
              | inr (here, _) ↦ absurd (unlike_Among t u ts distinct.0 m (sym here))
            ]
      ]

  add_tracks-found :
      (dir : Inode) (ts : List TrackEntry) (t : TrackEntry)
      → AllDistinct ts
      → IsClear dir ts
      → Among t ts
      → child (add_tracks fuse d dir ts) t.filename ≡ some (file_of t)
  add_tracks-found dir [] t distinct clear m = absurd m
  add_tracks-found dir (u ∷ ts) t distinct clear (inl here) =
      rw (tracks_step dir u ts, here)
        (add_tracks-IsWithin (add_child dir u.filename (file_of u)).0 ts u.filename (file_of u)
          (fuse.add_child_free dir u.filename (file_of u) (clear u (inl refl))).1)
  add_tracks-found dir (u ∷ ts) t distinct clear (inr there) = rw (tracks_step dir u ts) (
      add_tracks-found (add_child dir u.filename (file_of u)).0 ts t distinct.1
        (added-IsClear dir u ts distinct clear) there)

  chip_inode-found :
      (t : TrackEntry)
      → AllDistinct d.tracks
      → Among t d.tracks
      → child (chip_inode fuse d) t.filename ≡ some (file_of t)
  unfolding chip_inode
  chip_inode-found t distinct m =
      add_tracks-found (inode (chip_dir d)) d.tracks t distinct
        (λ u h. fuse.child-inode (chip_dir d) u.filename) m

-- The tracks of a file are numbered, or there is one track.
abbrev IsNumbered : ChipFile → Type 0
IsNumbered cf = (cf.single_track ≡ false) ⊎ (length cf.tracks ≡ 1)

ok_of_some :
    {E : Type 0} (r : Result E ChipFile) {cf : ChipFile} → without_error r ≡ some cf → r ≡ ok cf
ok_of_some (ok c) h = ap ok (cc h)
ok_of_some (err e) h = absurd (cc h)

one-AllDistinct :
    (cf : ChipFile) (dp df i : ℕ) (ts : List ChipTrack)
    → length ts ≡ 1
    → AllDistinct (build_entries cf dp df i ts)
unfolding build_entries
one-AllDistinct cf dp df i [] h = tt
one-AllDistinct cf dp df i (t ∷ []) h = (tt, tt)
one-AllDistinct cf dp df i (t ∷ u ∷ ts) h = absurd (omega (arith, h))

numbered-AllDistinct :
    (cf : ChipFile) (dp df : ℕ) → IsNumbered cf → AllDistinct (track_list cf dp df)
numbered-AllDistinct cf dp df (inl numbered) = track_list-AllDistinct cf dp df numbered
numbered-AllDistinct cf dp df (inr one) =
    unfold track_list in one-AllDistinct cf dp df 0 cf.tracks one

parse_nsf-IsNumbered : (bytes : Bytes) {cf : ChipFile} → parse_nsf bytes ≡ ok cf → IsNumbered cf
unfolding parse_nsf
parse_nsf-IsNumbered bytes {cf} e =
    let (h, parsed, made) = first_ok (Nsf.parse bytes) _ e in
    inl (ap (λ (z : ChipFile). z.single_track) (sym (ok_injective made)))

parse_gbs-IsNumbered : (bytes : Bytes) {cf : ChipFile} → parse_gbs bytes ≡ ok cf → IsNumbered cf
unfolding parse_gbs
parse_gbs-IsNumbered bytes {cf} e =
    let (h, parsed, made) = first_ok (Gbs.parse bytes) _ e in
    inl (ap (λ (z : ChipFile). z.single_track) (sym (ok_injective made)))

module _ (abs : Bytes → Option Bytes) (path : Bytes) where
  parse_spc-IsNumbered :
      (bytes : Bytes) {cf : ChipFile} → parse_spc abs path bytes ≡ ok cf → IsNumbered cf
  unfolding parse_spc
  parse_spc-IsNumbered bytes {cf} e =
      let (h, parsed, made) = first_ok (Spc.parse bytes) _ e in
      inr (ap (λ (z : ChipFile). length z.tracks) (sym (ok_injective made)))

  parse_as-IsNumbered :
      (format : Format) (bytes : Bytes) {cf : ChipFile}
      → parse_as abs format path bytes ≡ some cf
      → IsNumbered cf
  unfolding parse_as
  parse_as-IsNumbered nsf bytes h = parse_nsf-IsNumbered bytes (ok_of_some (parse_nsf bytes) h)
  parse_as-IsNumbered gbs bytes h = parse_gbs-IsNumbered bytes (ok_of_some (parse_gbs bytes) h)
  parse_as-IsNumbered spc bytes h =
      parse_spc-IsNumbered bytes (ok_of_some (parse_spc abs path bytes) h)

  pub build_track_list-AllDistinct :
      (read_file : Bytes → Result Bytes Bytes) (dp df : ℕ) {tracks : List TrackEntry}
      → build_track_list abs read_file path dp df ≡ some tracks
      → AllDistinct tracks
  build_track_list-AllDistinct read_file dp df h =
      let (cf, format, bytes, parsed, from) = build_track_list_parsed abs read_file path dp df h in
      rw from (numbered-AllDistinct cf dp df (parse_as-IsNumbered format bytes parsed))

-- What the album artist of the directory does to a track of the chip.
abbrev pub credited : Bytes → PendingChip → TrackEntry → TrackEntry
credited artist p t = if p.is_spc then with_artist artist t else t

credited-IsUnlike :
    (artist : Bytes) (t : TrackEntry) (ts : List TrackEntry)
    → IsUnlike t ts
    → IsUnlike (with_artist artist t) (map (with_artist artist) ts)
credited-IsUnlike artist t [] h = tt
credited-IsUnlike artist t (u ∷ ts) h = (h.0, credited-IsUnlike artist t ts h.1)

credited-AllDistinct :
    (artist : Bytes) (ts : List TrackEntry)
    → AllDistinct ts
    → AllDistinct (map (with_artist artist) ts)
credited-AllDistinct artist [] h = tt
credited-AllDistinct artist (t ∷ ts) h =
    (credited-IsUnlike artist t ts h.0, credited-AllDistinct artist ts h.1)

map-Among : {A B : Type 0} (f : A → B) (a : A) (l : List A) → Among a l → Among (f a) (map f l)
map-Among f a [] h = absurd h
map-Among f a (b ∷ l) (inl here) = inl (ap f here)
map-Among f a (b ∷ l) (inr there) = inr (map-Among f a l there)

module _ (fuse : Fuse) (artist : Bytes) (p : PendingChip) (t : TrackEntry) where
  -- The file of every track is in the virtual folder, under the name of the track.
  pub folder_of-found :
      AllDistinct p.chip.tracks
      → Among t p.chip.tracks
      → fuse.child (folder_of fuse artist p) t.filename
        ≡ some (
            fuse.inode
              (track_file p.chip.mtime (new_track_file p.chip.source_path (credited artist p t))))
  unfolding with_album_artist
  folder_of-found distinct m = elim (Bool-cases p.is_spc) [
    | inl is ↦ rw is (
        chip_inode-found fuse (record p.chip { tracks = map (with_artist artist) p.chip.tracks })
          (with_artist artist t) (credited-AllDistinct artist p.chip.tracks distinct)
          (map-Among (with_artist artist) t p.chip.tracks m))
    | inr isnt ↦ rw isnt (chip_inode-found fuse p.chip t distinct m)
  ]
