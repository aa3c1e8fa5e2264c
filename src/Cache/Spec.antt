-- ===== src/Cache/Spec.antt =====
-- What the cache of internal/cache/cache.go promises: a list of entries, most recently used first.
-- Nothing here knows of maps, addresses or a running count.
use chipfs.Base.{
  ℕ, suc, ◌+◌, ◌≤◌, ◌<◌, ◌≡◌, refl, ap, Option, none, some, List, [], ◌∷◌, ◌++◌, ite, leb, length,
  if◌then◌else◌, arith, inl, inr, ◌⊎◌, Bool-cases,
}
use chipfs.Cache.{Key, Key-discrete, Entry}

abbrev pub entry : Key → List ℕ → Entry
entry k bytes = record { k = k; bytes = bytes }

unfoldable pub lookup : Key → List Entry → Option (List ℕ)
lookup k [] = none
lookup k (e ∷ l) = ite (Key-discrete e.k k) (some e.bytes) (lookup k l)

unfoldable pub without : Key → List Entry → List Entry
without k [] = []
without k (e ∷ l) = ite (Key-discrete e.k k) l (e ∷ without k l)

abbrev pub bytes_total : List Entry → ℕ
bytes_total [] = 0
bytes_total (e ∷ l) = length e.bytes + bytes_total l

-- The longest prefix that fits into `max_bytes`, of which `used` are taken.
unfoldable pub fit : ℕ → ℕ → List Entry → List Entry
fit used max_bytes [] = []
fit used max_bytes (e ∷ l) =
    if leb (used + length e.bytes) max_bytes
    then e ∷ fit (used + length e.bytes) max_bytes l
    else []

-- The newest entry stays, whatever its size.
unfoldable pub keep : ℕ → List Entry → List Entry
unfolding fit
keep max_bytes [] = []
keep max_bytes (e ∷ l) = e ∷ fit (length e.bytes) max_bytes l

-- A read moves its entry to the front.
unfoldable pub touch : Key → List Entry → List Entry × Option (List ℕ)
touch k l = elim (lookup k l) [ none ↦ (l, none) | some b ↦ (entry k b ∷ without k l, some b) ]

-- A write puts its entry at the front, and drops from the back what does not fit.
unfoldable pub store : ℕ → Key → List ℕ → List Entry → List Entry
unfolding keep
store max_bytes k bytes l = keep max_bytes (entry k bytes ∷ without k l)

unfoldable pub drop_last {ℓ} : {A : Type ℓ} → List A → List A
drop_last [] = []
drop_last (x ∷ []) = []
drop_last (x ∷ y ∷ l) = x ∷ drop_last (y ∷ l)

pub fit_all :
    (used max_bytes : ℕ) (l : List Entry)
    → used + bytes_total l ≤ max_bytes
    → fit used max_bytes l ≡ l
unfolding fit
fit_all used m [] h = refl
fit_all used m (e ∷ l) h = ground (arith, fit_all (used + length e.bytes) m l (omega arith))

pub fit-drop_last :
    (used max_bytes : ℕ) (e : Entry) (l : List Entry)
    → max_bytes < used + bytes_total (e ∷ l)
    → fit used max_bytes (drop_last (e ∷ l)) ≡ fit used max_bytes (e ∷ l)
unfolding fit drop_last
fit-drop_last used m e [] h = ground arith
fit-drop_last used m e (f ∷ l) h = ground (arith, fit-drop_last (used + length e.bytes) m f l)

-- What `fit` leaves out, and that the first entry of it would not have fitted.
abbrev pub IsCut : ℕ → ℕ → List Entry → List Entry → Type 0
IsCut used max_bytes kept [] = Unit
IsCut used max_bytes kept (e ∷ gone) = max_bytes < used + bytes_total kept + length e.bytes

IsCut-cons :
    (used max_bytes : ℕ) (e : Entry) (kept gone : List Entry)
    → IsCut (used + length e.bytes) max_bytes kept gone
    → IsCut used max_bytes (e ∷ kept) gone
IsCut-cons used m e kept [] h = tt
IsCut-cons used m e kept (x ∷ gone) h = omega arith

IsCut-cons_zero :
    (max_bytes : ℕ) (e : Entry) (kept gone : List Entry)
    → IsCut (length e.bytes) max_bytes kept gone
    → IsCut 0 max_bytes (e ∷ kept) gone
IsCut-cons_zero m e kept [] h = tt
IsCut-cons_zero m e kept (x ∷ gone) h = omega arith

pub fit-IsCut :
    (used max_bytes : ℕ) (l : List Entry)
    → (gone : List Entry) × (l ≡ fit used max_bytes l ++ gone)
      × IsCut used max_bytes (fit used max_bytes l) gone
unfolding fit
fit-IsCut used m [] = ([], refl, tt)
fit-IsCut used m (e ∷ l) = elim (Bool-cases (leb (used + length e.bytes) m)) [
  | inl yes' ↦
      let (gone, split, cut) = fit-IsCut (used + length e.bytes) m l in
      rw yes' (gone, ap (◌∷◌ e) split, IsCut-cons used m e _ gone cut)
  | inr no' ↦ rw no' (e ∷ l, refl, ground arith)
]

pub fit_bound :
    (used max_bytes : ℕ) (l : List Entry)
    → (used + bytes_total (fit used max_bytes l) ≤ max_bytes) ⊎ (fit used max_bytes l ≡ [])
unfolding fit
fit_bound used m [] = inr refl
fit_bound used m (e ∷ l) = ground (arith, fit_bound (used + length e.bytes) m l)

pub keep_all : (max_bytes : ℕ) (l : List Entry) → bytes_total l ≤ max_bytes → keep max_bytes l ≡ l
unfolding keep
keep_all m [] h = refl
keep_all m (e ∷ l) h = ap (◌∷◌ e) (fit_all (length e.bytes) m l h)

pub keep_one : (max_bytes : ℕ) (l : List Entry) → length l ≤ 1 → keep max_bytes l ≡ l
unfolding keep
keep_one m [] h = refl
keep_one m (e ∷ []) h = refl
keep_one m (e ∷ f ∷ l) h = absurd (omega arith)

pub keep-drop_last :
    (max_bytes : ℕ) (l : List Entry)
    → max_bytes < bytes_total l
    → 1 < length l
    → keep max_bytes (drop_last l) ≡ keep max_bytes l
unfolding keep drop_last
keep-drop_last m [] h k = refl
keep-drop_last m (e ∷ []) h k = absurd (omega arith)
keep-drop_last m (e ∷ f ∷ l) h k = ap (◌∷◌ e) (fit-drop_last (length e.bytes) m f l h)

pub length-drop_last {ℓ} : {A : Type ℓ} (x : A) (l : List A) → length (drop_last (x ∷ l)) ≡ length l
unfolding drop_last
length-drop_last x [] = refl
length-drop_last x (y ∷ l) = ap suc (length-drop_last y l)

pub keep-IsCut :
    (max_bytes : ℕ) (e : Entry) (l : List Entry)
    → (gone : List Entry) × (e ∷ l ≡ keep max_bytes (e ∷ l) ++ gone)
      × ((bytes_total (keep max_bytes (e ∷ l)) ≤ max_bytes) ⊎ (keep max_bytes (e ∷ l) ≡ e ∷ []))
      × IsCut 0 max_bytes (keep max_bytes (e ∷ l)) gone
unfolding keep
keep-IsCut m e l =
    let (gone, split, cut) = fit-IsCut (length e.bytes) m l in
    (
      gone,
      ap (◌∷◌ e) split,
      ground (arith, fit_bound (length e.bytes) m l),
      IsCut-cons_zero m e (fit (length e.bytes) m l) gone cut,
    )
