-- ===== src/Vfs/Store/Flight/Samples.antt =====
-- A run of one call of `TrackFile.Read` with a render that succeeds, over a cache that has room for
-- just that render.
use chipfs.Base.{
  ℕ, zero, suc, ◌≤◌, ◌≡◌, refl, List, [], ◌∷◌, itoa, Bool, length, Option, some, Bytes, ok, text,
  arith,
}
use chipfs.Cache
use chipfs.Cache.{Cache, Key-discrete, new}
use chipfs.Cache.Invariant.{new-IsValid}
use chipfs.Cache.Spec.{entry, lookup}
use chipfs.Gme.{open_emu, start_track, set_fade, check, chipfs_set_fade}
use chipfs.Vfs.Render.{TrackFile, render_track, set_up}
use chipfs.Vfs.Render.Track.{render_track_total}
use chipfs.Vfs.Tests.{counting, disk, song, plays}
use chipfs.Vfs.Store.Coherent.{IsCoherent}
use chipfs.Vfs.Store.Flight.{
  Request, System, Reach, start, later, started, move, turn, deliver, flight_key,
}
use chipfs.Vfs.Store.Flight.Answers.{IsMade}
use chipfs.Vfs.Store.Flight.Roomy.{track, IsRoomy}
use chipfs.Vfs.Store.Flight.Total.{renders, renders_once}
use chipfs.Vfs.Store.Flight.Table.{table}

-- A track with nothing to read from its header
abbrev bare : TrackFile
bare = record { entry = song; source_path = text "game.gbs"; header = []; estimated_size = 0 }

abbrev question : ℕ → Request
question i = record { file = bare; dest = 16; off = 0 }

ready : set_up counting disk bare ≡ ok (record { handle = 0; sample_rate = 1000 })
unfolding set_up open_emu start_track set_fade check chipfs_set_fade
ready = refl

abbrev rendered : (w : Bytes) × (render_track counting disk bare ≡ ok w)
rendered = render_track_total counting disk bare ready plays

abbrev content : List ℕ → ℕ → Option Bytes
content path index = some rendered.0

honest : (i : ℕ) → IsMade content counting disk (question i) (render_track counting disk bare)
honest i = rw rendered.1 refl

abbrev small : Cache
small = new (length rendered.0)

small-IsCoherent : IsCoherent content small
small-IsCoherent = record {
  valid = new-IsValid (length rendered.0);
  faithful = λ path index bytes found. absurd (unfold new Cache.get in (cc found));
}

small-IsRoomy : IsRoomy content question 1 small
unfolding new lookup Key-discrete
small-IsRoomy = record {
  missing = entry (track (question 0)) rendered.0 ∷ [];
  room = omega arith;
  listed = λ j w lt made out. made;
}

abbrev state : ℕ → System (Bytes → Bool)
state zero = started table counting disk question small
state (suc k) = turn table counting disk question (state k) 0

-- The call misses twice and renders.
run : Reach table counting disk question 1 small 4 (state 4)
unfolding turn move deliver flight_key Cache.get new itoa
run =
    later
      (later (later (later start 0 (omega arith) refl) 0 (omega arith) refl) 0 (omega arith) refl) 0
      (omega arith) refl

counted_once : renders table counting disk question (question 0) run ≡ 1
unfolding renders Key-discrete turn move deliver flight_key Cache.get new itoa run
counted_once = refl

renders_once_example : renders table counting disk question (question 0) run ≤ 1
renders_once_example =
    renders_once table counting disk question content honest (question 0) {w = rendered.0}
      small-IsCoherent small-IsRoomy refl run
