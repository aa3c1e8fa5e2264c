-- ===== src/Vfs/Store/Flight/Led.antt =====
-- Who leads in every state that concurrent calls of `TrackFile.Read` reach.
use chipfs.Base.{ℕ, ◌<◌, ◌≡◌, ◌≢◌, sym, ap, ◌∙◌, true, false, Bytes, Result, ℕ_discrete}
use chipfs.Cache.{Cache}
use chipfs.Gme.{Libgme}
use chipfs.Vfs.Render.{RenderError}
use chipfs.Vfs.Store.Flight.{Group, done, Request, System, can_move, Reach, start, later, started}
use chipfs.Vfs.Store.Flight.Leaders.{IsLed, leads, parks, same-IsLed, begin-IsLed, finish-IsLed}
use chipfs.Vfs.Store.Flight.Turns.{
  stays, begins, waits, ends, move-Effect, moved, key_of, next, turn-store, turn_self, turn_other,
  parks-deliver, leads-deliver,
}

module _ (group : Group) (lib : Libgme) (read_file : Bytes → Result Bytes Bytes) where
  open group use {Calls, busy-idle}

  module _ (ask : ℕ → Request) where
    abbrev key : ℕ → Bytes
    key = key_of ask

    abbrev after : System Calls → ℕ → System Calls
    after = next group lib read_file ask

    -- Who leads, and who waits
    abbrev pub IsLedBy : ℕ → System Calls → Type 0
    IsLedBy n s = IsLed group n key s.store.calls (λ j. leads (s.pc j)) (λ j. parks (s.pc j))

    turn-IsLedBy :
        {n : ℕ} (s : System Calls) (i : ℕ)
        → i < n
        → can_move (s.pc i) ≡ true
        → IsLedBy n s
        → IsLedBy n (after s i)
    turn-IsLedBy {n} s i lt can h =
        elim (move-Effect group lib read_file s.store (ask i) (s.pc i) can) [
          | stays calls lead park quiet ↦
              rw (turn-store group lib read_file ask s i, calls)
                (same-IsLed group n key h (everyone lead) (λ j p. h.parked j (fewer park j p).0))
          | begins free calls at looks ↦
              rw (turn-store group lib read_file ask s i, calls)
                (begin-IsLed group n key h i lead_other lt free
                  (ap leads (turn_self group lib read_file ask s i ∙ looks))
                  (λ j p. (fewer (ap parks looks) j p).0))
          | waits taken calls at parked ↦
              rw (turn-store group lib read_file ask s i, calls)
                (same-IsLed group n key h (everyone (ap leads parked ∙ sym (ap leads at))) (λ j p.
                  elim (ℕ_discrete j i) [
                    | yes e ↦ rw e taken
                    | no ne ↦ h.parked j (park_other j ne p).0
                  ]))
          | ends r at calls answered ↦
              rw (turn-store group lib read_file ask s i, calls)
                (finish-IsLed group n key h i lead_other (ap leads at)
                  (ap leads (turn_self group lib read_file ask s i ∙ answered))
                  (λ j p. let (was, other) = fewer (ap parks answered) j p in (was, other r at)))
        ]
      where
        lead_other : (j : ℕ) → j ≢ i → leads ((after s i).pc j) ≡ leads (s.pc j)
        lead_other j ne =
            ap leads (turn_other group lib read_file ask s i j ne)
            ∙ leads-deliver (s.pc i) (key i) (ask j) (s.pc j)

        park_other :
            (j : ℕ)
            → j ≢ i
            → parks ((after s i).pc j) ≡ true
            → (parks (s.pc j) ≡ true)
              × ((r : Result RenderError Bytes) → s.pc i ≡ done r → key j ≢ key i)
        park_other j ne p =
            parks-deliver (s.pc i) (key i) (ask j) (s.pc j)
              (sym (ap parks (turn_other group lib read_file ask s i j ne)) ∙ p)

        everyone :
            leads (moved group lib read_file ask s i).1 ≡ leads (s.pc i)
            → (j : ℕ) → leads ((after s i).pc j) ≡ leads (s.pc j)
        everyone mine j = elim (ℕ_discrete j i) [
          | yes e ↦ rw e (ap leads (turn_self group lib read_file ask s i) ∙ mine)
          | no ne ↦ lead_other j ne
        ]

        fewer :
            parks (moved group lib read_file ask s i).1 ≡ false
            → (j : ℕ) → parks ((after s i).pc j) ≡ true
            → (parks (s.pc j) ≡ true)
              × ((r : Result RenderError Bytes) → s.pc i ≡ done r → key j ≢ key i)
        fewer mine j p = elim (ℕ_discrete j i) [
          | yes e ↦ absurd (cc (p, ap parks (turn_self group lib read_file ask s i), mine, e))
          | no ne ↦ park_other j ne p
        ]

    started-IsLedBy : (n : ℕ) (c : Cache) → IsLedBy n (started group lib read_file ask c)
    started-IsLedBy n c = record {
      flying = λ i. cc;
      unique = λ i j. cc;
      covered = λ k b. absurd (cc (b, busy-idle k));
      parked = λ i. cc;
    }

    -- In every state that is reached the group knows who leads.
    pub Reach-IsLedBy :
        {n : ℕ} {c : Cache} {k : ℕ} {s : System Calls}
        → Reach group lib read_file ask n c k s
        → IsLedBy n s
    Reach-IsLedBy {n} {c} start = started-IsLedBy n c
    Reach-IsLedBy (later r i lt can) = turn-IsLedBy _ i lt can (Reach-IsLedBy r)
