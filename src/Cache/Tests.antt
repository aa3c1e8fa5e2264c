-- ===== src/Cache/Tests.antt =====
-- Runs of internal/cache/cache.go on small caches, and the theorems at such inputs.
use chipfs.Base.{ℕ, ◌≤◌, ◌≡◌, refl, ◌⊎◌, none, some, List, [], ◌∷◌, ◌++◌}
use chipfs.Cache.{
  Key-discrete, Entry, Cache, new, update, remove, contains, move_to_front, back, get, discard,
  push_front, evict, replace, set,
}
use chipfs.Cache.Invariant.{IsValid, new-IsValid, set-IsValid}
use chipfs.Cache.Spec.{entry, without, bytes_total, IsCut}
use chipfs.Cache.Refines.{view}
use chipfs.Cache.Client.{
  key, set_evicts_oldest, Call, get_call, set_call, run, run_list, run-refines, new-run-refines,
}

abbrev game : List ℕ
game = b'g' ∷ []

-- Capacity 5, an entry of three bytes under track 0 and one of two bytes under track 1.
abbrev two_tracks : Cache
two_tracks = set (set (new 5) game 0 (1 ∷ 2 ∷ 3 ∷ [])) game 1 (4 ∷ 5 ∷ [])

two_tracks-IsValid : IsValid two_tracks
two_tracks-IsValid =
    set-IsValid game 1 (4 ∷ 5 ∷ []) (set-IsValid game 0 (1 ∷ 2 ∷ 3 ∷ []) (new-IsValid 5))

program : Unit {0}
unfolding Key-discrete new update remove contains move_to_front back get discard push_front evict
    replace set
program = tt

-- Track 0 was read last, so the third track evicts track 1.
read_then_evict :
    (run
      (get_call game 0 ∷ set_call game 2 (6 ∷ 7 ∷ []) ∷ get_call game 1 ∷ get_call game 0 ∷ [])
      two_tracks).1
    ≡ some (1 ∷ 2 ∷ 3 ∷ []) ∷ none ∷ some (1 ∷ 2 ∷ 3 ∷ []) ∷ []
unfolding program run
read_then_evict = refl

too_large : (set two_tracks game 3 (1 ∷ 2 ∷ 3 ∷ 4 ∷ 5 ∷ 6 ∷ [])).used ≡ 6
unfolding program
too_large = refl

set_evicts_oldest_example :
    let l = entry (key game 2) (6 ∷ 7 ∷ []) ∷ without (key game 2) (view two_tracks) in
    let kept = view (set two_tracks game 2 (6 ∷ 7 ∷ [])) in
    (gone : List Entry) × (l ≡ kept ++ gone)
    × ((set two_tracks game 2 (6 ∷ 7 ∷ [])).used ≡ bytes_total kept)
    × ((bytes_total kept ≤ two_tracks.max_bytes) ⊎ (kept ≡ entry (key game 2) (6 ∷ 7 ∷ []) ∷ []))
    × IsCut 0 two_tracks.max_bytes kept gone
set_evicts_oldest_example = set_evicts_oldest game 2 two_tracks-IsValid (6 ∷ 7 ∷ [])

abbrev calls : List Call
calls = get_call game 0 ∷ set_call game 2 (6 ∷ 7 ∷ []) ∷ get_call game 1 ∷ []

run-refines_example :
    IsValid (run calls two_tracks).0
    × (view (run calls two_tracks).0 ≡ (run_list two_tracks.max_bytes calls (view two_tracks)).0)
    × ((run calls two_tracks).1 ≡ (run_list two_tracks.max_bytes calls (view two_tracks)).1)
run-refines_example = run-refines calls two_tracks-IsValid

new-run-refines_example :
    IsValid (run calls (new 5)).0
    × (view (run calls (new 5)).0 ≡ (run_list 5 calls []).0)
    × ((run calls (new 5)).1 ≡ (run_list 5 calls []).1)
new-run-refines_example = new-run-refines 5 calls
