-- ===== src/Vfs/Store/Flight/Leaders.antt =====
-- Who runs the closure of `trackStore.render`: which readers lead a call of the group.
use chipfs.Base.{
  ℕ, ◌<◌, ◌≡◌, ◌≢◌, sym, ap, ◌∙◌, Bool, true, false, Bytes, Bytes-discrete, ℕ_discrete,
}
use chipfs.Vfs.Store.Flight.{Group, Pc, waiting, looking, rendering, storing, done}

-- From the start of the closure to its end
abbrev pub leads : Pc → Bool
leads looking = true
leads rendering = true
leads (storing _) = true
leads (done _) = true
leads _ = false

abbrev pub parks : Pc → Bool
parks waiting = true
parks _ = false

-- A group with the calls in flight, the readers that lead one and those that wait.
module _ (group : Group) (n : ℕ) (key : ℕ → Bytes) where
  open group use {
    Calls, busy, begin, finish, busy-begin, busy-begin_ne, busy-finish, busy-finish_ne,
  }

  pub record IsLed (calls : Calls) (lead park : ℕ → Bool) : Type 0 where
    pub flying : (i : ℕ) → lead i ≡ true → busy calls (key i) ≡ true
    pub unique : (i j : ℕ) → lead i ≡ true → lead j ≡ true → key i ≡ key j → i ≡ j
    pub covered :
        (k : Bytes) → busy calls k ≡ true → (j : ℕ) × (j < n) × (lead j ≡ true) × (key j ≡ k)
    pub parked : (i : ℕ) → park i ≡ true → busy calls (key i) ≡ true

  module _ {calls : Calls} {lead park lead' park' : ℕ → Bool} (h : IsLed calls lead park) where
    pub same-IsLed :
        ((j : ℕ) → lead' j ≡ lead j)
        → ((j : ℕ) → park' j ≡ true → busy calls (key j) ≡ true)
        → IsLed calls lead' park'
    same-IsLed kept parked = record {
      flying = λ i l. h.flying i (sym (kept i) ∙ l);
      unique = λ i j l m. h.unique i j (sym (kept i) ∙ l) (sym (kept j) ∙ m);
      covered = λ k b. let (j, lt, l, e) = h.covered k b in (j, lt, kept j ∙ l, e);
      parked = parked;
    }

    module _ (i : ℕ) (others : (j : ℕ) → j ≢ i → lead' j ≡ lead j) where
      pub begin-IsLed :
          i < n
          → busy calls (key i) ≡ false
          → lead' i ≡ true
          → ((j : ℕ) → park' j ≡ true → park j ≡ true)
          → IsLed (begin calls (key i)) lead' park'
      begin-IsLed lt free mine fewer = record {
        flying = λ j l. elim (ℕ_discrete j i) [
          | yes e ↦ rw e (busy-begin calls (key i))
          | no ne ↦ still (key j) (h.flying j (sym (others j ne) ∙ l))
        ];
        unique = λ j k l m e. elim (ℕ_discrete j i) [
          | yes ej ↦ elim (ℕ_discrete k i) [
            | yes ek ↦ ej ∙ sym ek
            | no nk ↦ absurd (cc (free, h.flying k (sym (others k nk) ∙ m), e, ej))
          ]
          | no nj ↦ elim (ℕ_discrete k i) [
            | yes ek ↦ absurd (cc (free, h.flying j (sym (others j nj) ∙ l), e, ek))
            | no nk ↦ h.unique j k (sym (others j nj) ∙ l) (sym (others k nk) ∙ m) e
          ]
        ];
        covered = λ k b. elim (Bytes-discrete k (key i)) [
          | yes e ↦ (i, lt, mine, sym e)
          | no ne ↦
              let (j, small, l, e) = h.covered k (sym (busy-begin_ne calls (key i) k ne) ∙ b) in
              let other : j ≢ i = λ same. ne (sym e ∙ ap key same) in
              (j, small, others j other ∙ l, e)
        ];
        parked = λ j p. still (key j) (h.parked j (fewer j p));
      }
        where
          still : (k : Bytes) → busy calls k ≡ true → busy (begin calls (key i)) k ≡ true
          still k b = elim (Bytes-discrete k (key i)) [
            | yes e ↦ rw e (busy-begin calls (key i))
            | no ne ↦ busy-begin_ne calls (key i) k ne ∙ b
          ]

      pub finish-IsLed :
          lead i ≡ true
          → lead' i ≡ false
          → ((j : ℕ) → park' j ≡ true → (park j ≡ true) × (key j ≢ key i))
          → IsLed (finish calls (key i)) lead' park'
      finish-IsLed mine over fewer = record {
        flying = λ j l.
            let other : j ≢ i = λ e. cc (l, over, ap lead' e) in
            let was = sym (others j other) ∙ l in
            busy-finish_ne calls (key i) (key j) (λ e. other (h.unique j i was mine e))
            ∙ h.flying j was;
        unique = λ j k l m.
            h.unique j k (sym (others j (λ e. cc (l, over, ap lead' e))) ∙ l)
              (sym (others k (λ e. cc (m, over, ap lead' e))) ∙ m);
        covered = λ k b.
            let ne : k ≢ key i = λ e. cc (busy-finish calls (key i), b, e) in
            let (j, small, l, e) = h.covered k (sym (busy-finish_ne calls (key i) k ne) ∙ b) in
            (j, small, others j (λ same. ne (sym e ∙ ap key same)) ∙ l, e);
        parked = λ j p.
            let (was, ne) = fewer j p in busy-finish_ne calls (key i) (key j) ne ∙ h.parked j was;
      }
