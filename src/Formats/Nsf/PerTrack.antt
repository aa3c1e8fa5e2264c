-- ===== src/Formats/Nsf/PerTrack.antt =====
-- The chunks with something for each track, internal/formats/nsf/nsf.go: the texts that
-- `splitNullTerminated` finds, and the assignments to `h.Tracks`.
use chipfs.Base.{
  ℕ, zero, suc, ◌-◌, ◌≤◌, ◌<◌, ◌≡◌, refl, sym, ap, ◌∙◌, List, [], ◌∷◌, ◌++◌, true, false, ◌&&◌, ltb,
  leb, length, map, All, drop, take-length_append, length-append, Bytes, le32, read_uint32-le32, ℤ,
  ok, arith,
}
use mathlib.Core.List.{append_assoc, append-nil}
use chipfs.Formats.{index_byte}
use chipfs.Formats.Slices.{IsNotNull, index_byte_found}
use chipfs.Formats.Nsf.{
  TrackInfo, no_info, Header, split_null_terminated, ensure_tracks, set_track, update_track,
  apply_titles, int32, apply_track_int32s,
}

abbrev pub null_terminated : List Bytes → Bytes
null_terminated [] = []
null_terminated (s ∷ strs) = s ++ (0 ∷ null_terminated strs)

drop_terminator : (s : Bytes) (c : ℕ) (rest : Bytes) → drop (suc (length s)) (s ++ c ∷ rest) ≡ rest
drop_terminator [] c rest = refl
drop_terminator (b ∷ s) c rest = drop_terminator s c rest

split_first :
    (s rest : Bytes) (max : ℕ)
    → All IsNotNull s
    → split_null_terminated (s ++ (0 ∷ rest)) (suc max) ≡ s ∷ split_null_terminated rest max
unfolding split_null_terminated index_byte
split_first [] rest max h = refl
split_first (c ∷ s) rest max h =
    rw
      (
        split_null_terminated,
        index_byte_found (c ∷ s) rest h,
        take-length_append s (0 ∷ rest),
        drop_terminator s 0 rest,
      )
      refl

-- Texts without nulls are told apart by the nulls behind them.
pub split_null_terminated-null_terminated :
    (strs : List Bytes) (max : ℕ)
    → All (All IsNotNull) strs
    → length strs ≤ max
    → split_null_terminated (null_terminated strs) max ≡ strs
split_null_terminated-null_terminated [] zero h k = unfold split_null_terminated in refl
split_null_terminated-null_terminated [] (suc max) h k = unfold split_null_terminated in refl
split_null_terminated-null_terminated (s ∷ strs) zero h k = absurd (omega arith)
split_null_terminated-null_terminated (s ∷ strs) (suc max) h k =
    split_first s (null_terminated strs) max h.0
    ∙ ap (λ (z : List Bytes). s ∷ z)
        (split_null_terminated-null_terminated strs max h.1 (omega arith))

set_track-append :
    (before : List TrackInfo) (t : TrackInfo) (after : List TrackInfo) (f : TrackInfo → TrackInfo)
    → set_track (before ++ t ∷ after) (length before) f ≡ ok (before ++ f t ∷ after)
unfolding set_track
set_track-append [] t after f = refl
set_track-append (b ∷ before) t after f = rw (set_track-append before t after f) refl

-- An assignment to a track that is there, and one to the next track.
update_track_inside :
    (h : Header) (before : List TrackInfo) (t : TrackInfo) (after : List TrackInfo)
    (f : TrackInfo → TrackInfo)
    → h.tracks ≡ before ++ t ∷ after
    → update_track h (length before) f ≡ ok (record h { tracks = before ++ f t ∷ after })
unfolding update_track ensure_tracks
update_track_inside h before t after f e =
    let size = ap length e ∙ length-append before (t ∷ after) in
    let inside : ltb (length h.tracks) (suc (length before)) ≡ false = ground (arith, size) in
    rw (inside, e, set_track-append before t after f) refl

update_track_next :
    (h : Header) (f : TrackInfo → TrackInfo)
    → update_track h (length h.tracks) f ≡ ok (record h { tracks = h.tracks ++ f no_info ∷ [] })
unfolding update_track ensure_tracks
update_track_next h f =
    let grows : ltb (length h.tracks) (suc (length h.tracks)) ≡ true = ground arith in
    let one : suc (length h.tracks) - length h.tracks ≡ 1 = omega arith in
    rw (grows, one, set_track-append h.tracks no_info [] f) refl

-- `case "tlbl"`: each title goes to a new track.
abbrev pub titled : Bytes → TrackInfo
titled t = record no_info { title = t }

pub apply_titles-titled :
    (titles : List Bytes) (h : Header) (i : ℕ)
    → length h.tracks ≡ i
    → apply_titles h i titles ≡ ok (record h { tracks = h.tracks ++ map titled titles })
unfolding apply_titles
apply_titles-titled [] h i e = rw (append-nil h.tracks) refl
apply_titles-titled (t ∷ titles) h i e =
    let set : update_track h i (λ (info : TrackInfo). record info { title = t })
        ≡ ok (record h { tracks = h.tracks ++ titled t ∷ [] }) =
      rw (sym e) (update_track_next h (λ (info : TrackInfo). record info { title = t })) in
    rw (set, sym (append_assoc h.tracks (titled t ∷ []) (map titled titles)))
      (apply_titles-titled titles (record h { tracks = h.tracks ++ titled t ∷ [] }) (suc i)
        (omega (arith, e, length-append h.tracks (titled t ∷ []))))

abbrev pub int32s : List ℕ → Bytes
int32s [] = []
int32s (v ∷ vs) = le32 v ++ int32s vs

module _ {A : Type 0} (info_of : A → TrackInfo) (value : A → ℕ)
    (set : TrackInfo → ℤ → TrackInfo) where
  abbrev set_value : A → TrackInfo
  set_value a = set (info_of a) (int32 (value a))

  -- `applyTrackInt32s`: a value for each track that is left goes to this track.
  pub apply_track_int32s-set_value :
      (rest : List A) (h : Header) (before : List TrackInfo)
      → All (λ a. value a < 4294967296) rest
      → h.tracks ≡ before ++ map info_of rest
      → h.track_count ≡ length h.tracks
      → apply_track_int32s h (length before) (int32s (map value rest)) set
        ≡ ok (record h { tracks = before ++ map set_value rest })
  unfolding apply_track_int32s
  apply_track_int32s-set_value [] h before small e count =
      ap (λ (tracks : List TrackInfo). ok (record h { tracks = tracks })) e
  apply_track_int32s-set_value (a ∷ rest) h before small e count =
      let size = ap length e ∙ length-append before (map info_of (a ∷ rest)) in
      let more : (ltb 0 h.track_count && leb h.track_count (length before)) ≡ false =
        ground (arith, count, size) in
      let read = read_uint32-le32 (value a) (int32s (map value rest)) small.0 in
      let updated =
        update_track_inside h before (info_of a) (map info_of rest)
          (λ info. set info (int32 (value a))) e in
      let h' = record h { tracks = before ++ set_value a ∷ map info_of rest } in
      let regroup : (xs : List TrackInfo)
          → (before ++ set_value a ∷ []) ++ xs ≡ before ++ set_value a ∷ xs =
        append_assoc before (set_value a ∷ []) in
      let next : length (before ++ set_value a ∷ []) ≡ suc (length before) =
        length-append before (set_value a ∷ []) ∙ omega arith in
      rw (more, read, updated)
        (ap (λ (i : ℕ). apply_track_int32s h' i (int32s (map value rest)) set) (sym next)
          ∙ apply_track_int32s-set_value rest h' (before ++ set_value a ∷ []) small.1
              (sym (regroup (map info_of rest)))
              (omega (arith, count, size, length-append before (set_value a ∷ map info_of rest)))
          ∙ ap (λ (tracks : List TrackInfo). ok (record h { tracks = tracks }))
              (regroup (map set_value rest)))
