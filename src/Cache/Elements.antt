-- ===== src/Cache/Elements.antt =====
-- Lists of elements: search by key, and what `Remove` by address means for the keys.
use chipfs.Base.{
  ℕ, ◌+◌, ◌≡◌, ◌≢◌, refl, true, Option, none, some, List, [], ◌∷◌, ite, Bool-cases, ◌==◌, All,
  arith, inl, inr,
}
use mathlib.Core.Path.{subst}
use chipfs.Cache.{Key, Key-discrete, Element, size, remove, contains, back, move_to_front}

-- The element with a key.
unfoldable pub find : Key → List Element → Option Element
find k [] = none
find k (e ∷ l) = ite (Key-discrete e.value.k k) (some e) (find k l)

unfoldable pub remove_key : Key → List Element → List Element
remove_key k [] = []
remove_key k (e ∷ l) = ite (Key-discrete e.value.k k) l (e ∷ remove_key k l)

abbrev pub total : List Element → ℕ
total [] = 0
total (e ∷ l) = size e + total l

-- No two elements share an address, and no two share a key.
abbrev pub IsDistinct : List Element → Type 0
IsDistinct [] = Unit
IsDistinct (e ∷ l) = All (λ x. (x.addr ≢ e.addr) × (x.value.k ≢ e.value.k)) l × IsDistinct l

pub All-remove {κ} :
    (P : Element → Type κ) (a : ℕ) (l : List Element) → All P l → All P (remove a l)
unfolding remove
All-remove P a [] h = h
All-remove P a (e ∷ l) h = elim (Bool-cases (e.addr == a)) [
  | inl p ↦ rw p h.1
  | inr p ↦ rw p (h.0, All-remove P a l h.1)
]

pub IsDistinct-remove : (a : ℕ) (l : List Element) → IsDistinct l → IsDistinct (remove a l)
unfolding remove
IsDistinct-remove a [] h = h
IsDistinct-remove a (e ∷ l) h = elim (Bool-cases (e.addr == a)) [
  | inl p ↦ rw p h.1
  | inr p ↦ rw p (
    All-remove (λ x. (x.addr ≢ e.addr) × (x.value.k ≢ e.value.k)) a l h.0,
    IsDistinct-remove a l h.1,
  )
]

pub find-All {κ} :
    (P : Element → Type κ) (k : Key) (l : List Element) {e : Element}
    → All P l
    → find k l ≡ some e
    → P e
unfolding find
find-All P k [] h p = cc
find-All P k (x ∷ l) {e} h p = elim (Key-discrete x.value.k k) [
  | yes q ↦ let same : x ≡ e = ground arith in subst P same h.0
  | no q ↦ find-All P k l h.1 (ground arith)
]

pub find_key : (k : Key) (l : List Element) {e : Element} → find k l ≡ some e → e.value.k ≡ k
unfolding find
find_key k [] p = cc
find_key k (x ∷ l) {e} p = ground (arith, find_key k l {e = e})

pub contains-find :
    (k : Key) (l : List Element) {e : Element} → find k l ≡ some e → contains e.addr l ≡ true
unfolding find contains
contains-find k [] p = cc
contains-find k (x ∷ l) {e} p = ground (arith, contains-find k l {e = e})

-- To unlink the node that the map has for a key is to take the key out.
pub remove-find :
    (k : Key) (l : List Element) {e : Element}
    → IsDistinct l
    → find k l ≡ some e
    → remove e.addr l ≡ remove_key k l
unfolding find remove remove_key
remove-find k [] d p = cc
remove-find k (x ∷ l) {e} d p = ground (
  arith,
  remove-find k l {e = e},
  find-All (λ y. (y.addr ≢ x.addr) × (y.value.k ≢ x.value.k)) k l {e = e} d.0,
)

find_absent_of_ne :
    (j : Key) (x : Element) (l : List Element)
    → All (λ y. (y.addr ≢ x.addr) × (y.value.k ≢ x.value.k)) l
    → x.value.k ≡ j
    → find j l ≡ none
unfolding find
find_absent_of_ne j x [] h p = refl
find_absent_of_ne j x (y ∷ l) h p = ground (arith, find_absent_of_ne j x l h.1)

pub find-remove_key :
    (j k : Key) (l : List Element)
    → IsDistinct l
    → find j (remove_key k l) ≡ ite (Key-discrete k j) none (find j l)
unfolding find remove_key
find-remove_key j k [] d = ground arith
find-remove_key j k (x ∷ l) d = ground (arith, find-remove_key j k l d.1, find_absent_of_ne j x l)

pub total-remove_key :
    (k : Key) (l : List Element) {e : Element}
    → find k l ≡ some e
    → total (remove_key k l) + size e ≡ total l
unfolding find remove_key
total-remove_key k [] p = cc
total-remove_key k (x ∷ l) {e} p = ground (arith, total-remove_key k l {e = e})

-- Apart from an element: another address and another key.
abbrev pub IsApart : Element → Element → Type 0
IsApart e x = (x.addr ≢ e.addr) × (x.value.k ≢ e.value.k)

pub remove-find-IsApart :
    (k : Key) (l : List Element) {e : Element}
    → IsDistinct l
    → find k l ≡ some e
    → All (IsApart e) (remove e.addr l)
unfolding find remove
remove-find-IsApart k [] d p = cc
remove-find-IsApart k (x ∷ l) {e} d p = elim (Key-discrete x.value.k k) [
  | yes q ↦
      let same : x ≡ e = ground arith in
      let here : remove x.addr (x ∷ l) ≡ l = ground arith in
      subst (λ y. All (IsApart y) (remove y.addr (x ∷ l))) same (rw here d.0)
  | no q ↦
      let later : find k l ≡ some e = ground arith in
      let apart = find-All (IsApart x) k l {e = e} d.0 later in
      ground (arith, remove-find-IsApart k l {e = e} d.1 later)
]

-- A key that the search misses is the key of no element.
pub All-of_absent : (k : Key) (l : List Element) → find k l ≡ none → All (λ x. x.value.k ≢ k) l
unfolding find
All-of_absent k [] p = tt
All-of_absent k (x ∷ l) p = (ground arith, All-of_absent k l (ground arith))

-- `Back` gives an element of the list, which the search by its key finds.
pub find-back :
    (l : List Element) {e : Element} → IsDistinct l → back l ≡ some e → find e.value.k l ≡ some e
unfolding find back
find-back [] d p = cc
find-back (x ∷ []) {e} d p = ground arith
find-back (x ∷ y ∷ l) {e} d p =
    ground
      (arith, find-back (y ∷ l) {e = e} d.1, find-All (IsApart x) e.value.k (y ∷ l) {e = e} d.0)

pub contains-move_to_front :
    (k : Key) (l : List Element) {e : Element}
    → find k l ≡ some e
    → move_to_front e l ≡ e ∷ remove e.addr l
unfolding move_to_front
contains-move_to_front k l {e} p = rw (contains-find k l p)
