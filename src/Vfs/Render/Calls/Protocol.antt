-- ===== src/Vfs/Render/Calls/Protocol.antt =====
-- The order in which internal/gme/gme.go may call C.
use chipfs.Base.{
  ◌≡◌, ap, inl, inr, List, [], ◌∷◌, ◌++◌, Bool, true, false, if◌then◌else◌, Option, none, some,
  Option-cases,
}
use chipfs.Vfs.Render.Calls.{Call, bytes_copied, bytes_freed, opened, started, deleted}

-- The emulator of a thread: not there, opened, or with a track that was started.
pub data Phase : Type 0 where
  closed : Phase
  fresh : Phase
  ready : Phase

-- What C holds: a copy of the file, and an emulator.
pub record Held : Type 0 where
  pub copied : Bool
  pub phase : Phase

abbrev pub nothing : Held
nothing = record { copied = false; phase = closed }

-- What C holds after a call; `none` where the call is not allowed: a second copy before the first
-- is freed, a second free or close, an emulator made from no copy, or one that is used before its
-- track is started or after it is closed.
unfoldable pub after : Held → Call → Option Held
after h bytes_copied = if h.copied then none else some (record h { copied = true })
after h bytes_freed = if h.copied then some (record h { copied = false }) else none
after h (opened success) = elim h.phase [
  | closed ↦ if h.copied then some (if success then record h { phase = fresh } else h) else none
  | _ ↦ none
]
after h (started success) = elim h.phase [
  | closed ↦ none
  | _ ↦ some (if success then record h { phase = ready } else h)
]
after h deleted = elim h.phase [ closed ↦ none | _ ↦ some (record h { phase = closed }) ]
after h use_of_track = elim h.phase [ ready ↦ some h | _ ↦ none ]

unfoldable pub run : Held → List Call → Option Held
run h [] = some h
run h (c ∷ calls) = elim (after h c) [ none ↦ none | some h' ↦ run h' calls ]

some_injective : {A : Type 0} {a b : A} → some a ≡ some b → a ≡ b
some_injective e = cc e

pub run-append :
    (h : Held) (calls more : List Call) {h' : Held}
    → run h calls ≡ some h'
    → run h (calls ++ more) ≡ run h' more
unfolding run
run-append h [] more e = ap (λ (z : Held). run z more) (some_injective e)
run-append h (c ∷ calls) more {h'} e = elim (Option-cases (after h c)) [
  | inl refused ↦ absurd (cc (rw (refused, run) at e))
  | inr (h'', allowed) ↦
      let rest : run h'' calls ≡ some h' = rw (allowed, run) at e in
      rw (allowed, run) (run-append h'' calls more rest)
]
