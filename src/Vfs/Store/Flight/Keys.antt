-- ===== src/Vfs/Store/Flight/Keys.antt =====
-- The key under which `trackStore.render` coalesces: the path, a NUL and the number of the track.
use chipfs.Base.{
  ℕ, ◌≤◌, ◌<◌, ◌≡◌, refl, sym, ap, ◌∙◌, [], ◌∷◌, ◌++◌, Bytes, All, arith, itoa, itoa-IsDigit,
  digits_value, digits_value-itoa,
}
use chipfs.Vfs.Render.{TrackFile}
use chipfs.Vfs.Store.Flight.{flight_key}

abbrev IsDigit : ℕ → Type 0
IsDigit d = (48 ≤ d) × (d < 58)

digits_hold_no_nul : (p d e : Bytes) → All IsDigit d → ¬ (d ≡ p ++ 0 ∷ e)
digits_hold_no_nul [] [] e h same = cc same
digits_hold_no_nul [] (a ∷ d) e h same = let first : a ≡ 0 = cc same in omega (arith, h.0, first)
digits_hold_no_nul (b ∷ p) [] e h same = cc same
digits_hold_no_nul (b ∷ p) (a ∷ d) e h same =
    digits_hold_no_nul p d e h.1 (let rest : d ≡ p ++ 0 ∷ e = cc same in rest)

split_at_nul :
    (p q d e : Bytes) → All IsDigit d → All IsDigit e → p ++ 0 ∷ d ≡ q ++ 0 ∷ e → (p ≡ q) × (d ≡ e)
split_at_nul [] [] d e hd he same = (refl, cc same)
split_at_nul [] (b ∷ q) d e hd he same =
    absurd (digits_hold_no_nul q d e hd (let rest : d ≡ q ++ 0 ∷ e = cc same in rest))
split_at_nul (a ∷ p) [] d e hd he same =
    absurd (digits_hold_no_nul p e d he (let rest : e ≡ p ++ 0 ∷ d = cc same in rest))
split_at_nul (a ∷ p) (b ∷ q) d e hd he same =
    let rest : p ++ 0 ∷ d ≡ q ++ 0 ∷ e = cc same in
    let first : a ≡ b = cc same in
    let (front, back) = split_at_nul p q d e hd he rest in (cc (first, front), back)

-- Two files that are coalesced are the same track of the same source, whatever bytes, also NULs,
-- their paths have.
pub flight_key_injective :
    (f g : TrackFile)
    → flight_key f ≡ flight_key g
    → (f.source_path ≡ g.source_path) × (f.entry.track_idx ≡ g.entry.track_idx)
unfolding flight_key
flight_key_injective f g same =
    let (path, digits) =
      split_at_nul f.source_path g.source_path (itoa f.entry.track_idx) (itoa g.entry.track_idx)
        (itoa-IsDigit f.entry.track_idx) (itoa-IsDigit g.entry.track_idx) same in
    (
      path,
      sym (digits_value-itoa f.entry.track_idx)
          ∙ ap (digits_value 0) digits
          ∙ digits_value-itoa g.entry.track_idx,
    )
