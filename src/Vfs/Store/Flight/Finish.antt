-- ===== src/Vfs/Store/Flight/Finish.antt =====
-- Concurrent calls of `TrackFile.Read` end: none waits for ever, whatever the schedule.
use chipfs.Base.{
  ℕ, zero, suc, ◌+◌, ◌*◌, ◌≤◌, ◌<◌, ◌≡◌, refl, ap, ◌⊎◌, inl, inr, Bool, true, false, Bool-cases,
  Bytes, Result, Option-cases, arith, ltb, ◌==◌, if◌then◌else◌, length, ℕ_discrete, Result-cases,
}
use chipfs.Cache
use chipfs.Cache.{Cache}
use chipfs.Gme.{Libgme}
use chipfs.Vfs.Render.{render_track}
use chipfs.Vfs.Store.{Errno}
use chipfs.Vfs.Store.Flight.{
  Group, Pc, called, joining, waiting, looking, rendering, storing, done, returned, TrackStore,
  Request, System, flight_key, deliver, can_move, move, Reach, start, later,
}
use chipfs.Vfs.Store.Flight.Leaders.{leads, parks}
use chipfs.Vfs.Store.Flight.Turns.{next, turn_self, turn_other, deliver_cases, key_of}
use chipfs.Vfs.Store.Flight.Led.{Reach-IsLedBy}

abbrev total : ℕ → (ℕ → ℕ) → ℕ
total zero f = 0
total (suc n) f = f n + total n f

total_le : (n : ℕ) (f g : ℕ → ℕ) → ((j : ℕ) → g j ≤ f j) → total n g ≤ total n f
total_le zero f g h = omega arith
total_le (suc n) f g h = omega (arith, h n, total_le n f g h)

total_lt :
    (n i : ℕ) (f g : ℕ → ℕ) → i < n → g i < f i → ((j : ℕ) → g j ≤ f j) → total n g < total n f
total_lt zero i f g lt less h = absurd (omega arith)
total_lt (suc n) i f g lt less h = elim (ℕ_discrete i n) [
  | yes e ↦ let here : g n < f n = rw e at less in omega (arith, here, total_le n f g h)
  | no ne ↦ omega (arith, h n, total_lt n i f g (omega arith) less h)
]

total_const : (n m : ℕ) → total n (λ _. m) ≡ n * m
total_const zero m = omega arith
total_const (suc n) m = ground (arith, total_const n m)

first_true :
    (n : ℕ) (p : ℕ → Bool) → ((i : ℕ) → i < n → p i ≡ false) ⊎ ((i : ℕ) × (i < n) × (p i ≡ true))
first_true zero p = inl (λ i lt. absurd (omega arith))
first_true (suc n) p = elim (Bool-cases (p n)) [
  | inl hit ↦ inr (n, omega arith, hit)
  | inr miss ↦ elim (first_true n p) [
    | inr (i, lt, hit) ↦ inr (i, omega arith, hit)
    | inl before ↦
        inl (λ i lt. elim (ℕ_discrete i n) [ yes e ↦ rw e miss | no ne ↦ before i (omega arith) ])
  ]
]

-- How many steps a reader has left at most.
abbrev pub rank : Pc → ℕ
rank called = 6
rank joining = 5
rank looking = 4
rank rendering = 3
rank (storing _) = 2
rank waiting = 1
rank (done _) = 1
rank (returned _) = 0

rank-deliver : (p : Pc) (k : Bytes) (q : Request) (x : Pc) → rank (deliver p k q x) ≤ rank x
rank-deliver p k q x = elim (deliver_cases p k q x) [
  | inl (kept, _) ↦ omega (arith, ap rank kept)
  | inr (r, _, waits, _, answered) ↦ omega (arith, ap rank answered)
]

stuck :
    (p : Pc) → can_move p ≡ false → (p ≡ waiting) ⊎ ((r : Result Errno Bytes) × (p ≡ returned r))
stuck waiting h = inl refl
stuck (returned r) h = inr (r, refl)
stuck p h = absurd (cc h)

leads-can_move : (p : Pc) → leads p ≡ true → can_move p ≡ true
leads-can_move looking h = refl
leads-can_move rendering h = refl
leads-can_move (storing b) h = refl
leads-can_move (done r) h = refl
leads-can_move p h = absurd (cc h)

module _ (group : Group) (lib : Libgme) (read_file : Bytes → Result Bytes Bytes) where
  open group use {Calls, busy}

  rank-move :
      (s : TrackStore Calls) (q : Request) (p : Pc)
      → can_move p ≡ true
      → rank (move group lib read_file s q p).1 < rank p
  unfolding move
  rank-move s q called can =
      elim (Option-cases (Cache.get s.cache q.file.source_path q.file.entry.track_idx).1) [
        | inr (bytes, hit) ↦ rw (hit, move) (omega arith)
        | inl miss ↦ elim (Bool-cases (ltb q.off (length q.file.header))) [
          | inl inside ↦ rw (miss, inside, move) (omega arith)
          | inr behind ↦ rw (miss, behind, move) (omega arith)
        ]
      ]
  rank-move s q joining can = elim (Bool-cases (busy s.calls (flight_key q.file))) [
    | inl taken ↦ rw (taken, move) (omega arith)
    | inr free ↦ rw (free, move) (omega arith)
  ]
  rank-move s q waiting can = absurd (cc can)
  rank-move s q looking can =
      elim (Option-cases (Cache.get s.cache q.file.source_path q.file.entry.track_idx).1) [
        | inr (bytes, hit) ↦ rw (hit, move) (omega arith)
        | inl miss ↦ rw (miss, move) (omega arith)
      ]
  rank-move s q rendering can = elim (Result-cases (render_track lib read_file q.file)) [
    | inl (e, failed) ↦ rw (failed, move) (omega arith)
    | inr (bytes, made) ↦ rw (made, move) (omega arith)
  ]
  rank-move s q (storing bytes) can = omega arith
  rank-move s q (done r) can = omega arith
  rank-move s q (returned r) can = absurd (cc can)

  module _ (ask : ℕ → Request) (n : ℕ) where
    abbrev left : System Calls → ℕ
    left s = total n (λ j. rank (s.pc j))

    left-turn :
        (s : System Calls) (i : ℕ)
        → i < n
        → can_move (s.pc i) ≡ true
        → left (next group lib read_file ask s i) < left s
    left-turn s i lt can = total_lt n i (λ j. rank (s.pc j)) _ lt less others
      where
        less : rank ((next group lib read_file ask s i).pc i) < rank (s.pc i)
        less = rw (turn_self group lib read_file ask s i) (rank-move s.store (ask i) (s.pc i) can)

        others : (j : ℕ) → rank ((next group lib read_file ask s i).pc j) ≤ rank (s.pc j)
        others j = elim (ℕ_discrete j i) [
          | yes e ↦ rw e (omega (arith, less))
          | no ne ↦
              rw (turn_other group lib read_file ask s i j ne)
                (rank-deliver (s.pc i) (key_of ask i) (ask j) (s.pc j))
        ]

    -- How many steps of a run the reader `j` takes.
    unfoldable pub turns_of :
        {c : Cache} {k : ℕ} {s : System Calls} → ℕ → Reach group lib read_file ask n c k s → ℕ
    turns_of j start = 0
    turns_of j (later r i lt can) =
        let before : ℕ = turns_of j r in if j == i then suc before else before

    turns_of-rank :
        {c : Cache} {k : ℕ} {s : System Calls} (j : ℕ)
        → (r : Reach group lib read_file ask n c k s) → turns_of j r + rank (s.pc j) ≤ 6
    unfolding turns_of
    turns_of-rank j start = omega arith
    turns_of-rank j (later {s} r i lt can) = elim (ℕ_discrete j i) [
      | yes own ↦
          let mine = rank-move s.store (ask i) (s.pc i) can in
          let now = ap rank (turn_self group lib read_file ask s i) in
          rw own (ground (arith, mine, now, turns_of-rank i r))
      | no other ↦ ground (
        arith,
        ap rank (turn_other group lib read_file ask s i j other),
        turns_of-rank j r,
        rank-deliver (s.pc i) (key_of ask i) (ask j) (s.pc j),
      )
    ]

    spent :
        {c : Cache} {k : ℕ} {s : System Calls}
        → Reach group lib read_file ask n c k s
        → k + left s ≤ n * 6
    spent start = omega (arith, total_const n 6)
    spent (later {s} r i lt can) = omega (arith, spent r, left-turn s i lt can)

    -- Every one of the `n` readers has returned.
    abbrev pub IsOver : System Calls → Type 0
    IsOver s = (i : ℕ) → i < n → (r : Result Errno Bytes) × (s.pc i ≡ returned r)

    -- Let `n` calls of `Read` run at once, on any files, in any order of steps. Each takes at
    -- most six steps, so that no run has more than six times `n`, and as long as one of them has
    -- not returned, one of them can take a step: there is no deadlock, and every run ends with all
    -- of them returned.
    pub reads_return :
        {c : Cache} {k : ℕ} {s : System Calls}
        → (r : Reach group lib read_file ask n c k s)
        → ((j : ℕ) → turns_of j r ≤ 6)
          × (k ≤ n * 6)
          × (IsOver s ⊎ ((i : ℕ) × (i < n) × (can_move (s.pc i) ≡ true)))
    reads_return {s} r = (
      λ j. omega (arith, turns_of-rank j r),
      omega (arith, spent r),
      elim (first_true n (λ i. can_move (s.pc i))) [
        | inr moves ↦ inr moves
        | inl still ↦ inl (λ i lt. elim (stuck (s.pc i) (still i lt)) [
          | inr over ↦ over
          | inl waits ↦
              let led = Reach-IsLedBy group lib read_file ask r in
              let (j, small, leading, _) =
                led.covered (key_of ask i) (led.parked i (ap parks waits)) in
              absurd (cc (leads-can_move (s.pc j) leading, still j small))
        ])
      ],
    )
