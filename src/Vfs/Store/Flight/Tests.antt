-- ===== src/Vfs/Store/Flight/Tests.antt =====
-- Two calls of `TrackFile.Read` at once, for the same track, and the theorems there.
use chipfs.Base.{
  ℕ, ◌*◌, ◌≤◌, ◌<◌, ◌≡◌, refl, ap, itoa, ◌⊎◌, List, [], ◌∷◌, Bool, true, false, none, Bytes, err,
  text, arith,
}
use chipfs.Cache
use chipfs.Cache.{Cache, new}
use chipfs.Cache.Invariant.{new-IsValid}
use chipfs.Vfs.Render.{TrackFile, render_track, set_up, opening}
use chipfs.Gme
use chipfs.Gme.{open_emu}
use chipfs.Vfs.Tests.{refusing, disk, song, nothing, empty-IsCoherent}
use chipfs.Vfs.Store.{eio}
use chipfs.Vfs.Store.Coherent.{IsCoherent}
use chipfs.Vfs.Store.Flight.{
  Request, System, Reach, start, later, move, turn, deliver, can_move, flight_key, called, waiting,
  rendering, returned,
}
use chipfs.Vfs.Store.Flight.Finish.{turns_of, IsOver, reads_return}
use chipfs.Vfs.Store.Flight.Answers.{IsAnswer, reads_answered}
use chipfs.Vfs.Store.Flight.Once.{looked_up, render_once}
use chipfs.Formats.{equal}
use chipfs.Vfs.Store.Flight.Leaders.{leads}
use chipfs.Vfs.Store.Flight.Table.{table}

-- The track of `file`, with nothing to read from its header.
abbrev bare : TrackFile
bare = record { entry = song; source_path = text "game.gbs"; header = []; estimated_size = 0 }

abbrev question : ℕ → Request
question i = record { file = bare; dest = 16; off = 0 }

abbrev after : List ℕ → System (Bytes → Bool)
after [] = record { store = record { cache = new 1000; calls = λ key. false }; pc = λ _. called }
after (i ∷ is) = turn table refusing disk question (after is) i

-- The first reader leads, the second waits for it, and the first is about to render.
both : Reach table refusing disk question 2 (new 1000) 5 (after (0 ∷ 1 ∷ 0 ∷ 1 ∷ 0 ∷ []))
unfolding turn move deliver flight_key Cache.get new equal itoa
both =
    later
      (later
        (later (later (later start 0 (omega arith) refl) 1 (omega arith) refl) 0 (omega arith) refl)
        1 (omega arith) refl)
      0 (omega arith) refl

parked : (after (0 ∷ 1 ∷ 0 ∷ 1 ∷ 0 ∷ [])).pc 1 ≡ waiting
unfolding turn move deliver flight_key Cache.get new equal itoa
parked = refl

reads_return_example :
    ((j : ℕ) → turns_of table refusing disk question 2 j both ≤ 6)
    × (5 ≤ 2 * 6)
    × (IsOver table refusing disk question 2 (after (0 ∷ 1 ∷ 0 ∷ 1 ∷ 0 ∷ []))
        ⊎ ((i : ℕ) × (i < 2) × (can_move ((after (0 ∷ 1 ∷ 0 ∷ 1 ∷ 0 ∷ [])).pc i) ≡ true)))
reads_return_example = reads_return table refusing disk question 2 both

about_to_render : (after (0 ∷ 1 ∷ 0 ∷ 1 ∷ 0 ∷ [])).pc 0 ≡ rendering
unfolding turn move deliver flight_key Cache.get new equal itoa
about_to_render = refl

render_once_example :
    (looked_up (after (0 ∷ 1 ∷ 0 ∷ 1 ∷ 0 ∷ [])).store.cache (question 0) ≡ none) × ◌≡◌ {A = ℕ} 0 0
render_once_example =
    render_once table refusing disk question {n = 2} (new-IsValid 1000) both about_to_render
      (ap leads about_to_render) refl refl

refused : render_track refusing disk bare ≡ err (opening (Gme.gme (text "wrong file type")))
unfolding render_track set_up open_emu
refused = refl

-- The render fails, and both readers get EIO.
over : Reach table refusing disk question 2 (new 1000) 7 (after (0 ∷ 0 ∷ 0 ∷ 1 ∷ 0 ∷ 1 ∷ 0 ∷ []))
unfolding turn move deliver flight_key Cache.get new render_track set_up open_emu equal itoa
over = later (later both 0 (omega arith) refl) 0 (omega arith) refl

second_returned : (after (0 ∷ 0 ∷ 0 ∷ 1 ∷ 0 ∷ 1 ∷ 0 ∷ [])).pc 1 ≡ returned (err eio)
unfolding turn move deliver flight_key Cache.get new render_track set_up open_emu equal itoa
second_returned = refl

reads_answered_example :
    IsCoherent nothing (after (0 ∷ 0 ∷ 0 ∷ 1 ∷ 0 ∷ 1 ∷ 0 ∷ [])).store.cache
    × IsAnswer nothing refusing disk (question 1) (err eio)
reads_answered_example =
    reads_answered nothing refusing disk table question
      (λ i. unfold render_track set_up open_emu in refl) empty-IsCoherent over second_returned
