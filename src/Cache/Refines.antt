-- ===== src/Cache/Refines.antt =====
-- The methods of internal/cache/cache.go implement the list of `Spec`.
use chipfs.Base.{
  ℕ, zero, suc, ◌≤◌, ◌<◌, ◌≡◌, refl, sym, ap, ◌∙◌, ◌&&◌, none, some, List, [], ◌∷◌, map, ltb,
  length, arith, inl, inr, Bool-cases, Option-cases, ◌⊎◌, length-map,
}
use mathlib.Core.Option
use chipfs.Cache.{
  Key, Entry, Element, Cache, remove, back, get, discard, push_front, evict, replace, set,
}
use chipfs.Cache.Elements.{
  find, remove_key, total, IsDistinct, IsApart, find_key, remove-find, find-back,
  contains-move_to_front, find-All,
}
use chipfs.Cache.Invariant.{IsValid, discard-IsValid, replace-IsValid, push_front-IsValid}
use chipfs.Cache.Spec.{
  lookup, without, bytes_total, keep, touch, store, drop_last, keep_all, keep_one, keep-drop_last,
  length-drop_last,
}

abbrev pub entries : List Element → List Entry
entries = map (λ e. e.value)

abbrev pub view : Cache → List Entry
view c = entries c.lru

pub bytes_total-entries : (l : List Element) → bytes_total (entries l) ≡ total l
bytes_total-entries [] = refl
bytes_total-entries (e ∷ l) = omega (arith, bytes_total-entries l)

entries-remove_key : (k : Key) (l : List Element) → entries (remove_key k l) ≡ without k (entries l)
unfolding remove_key without
entries-remove_key k [] = refl
entries-remove_key k (e ∷ l) = ground (arith, entries-remove_key k l)

lookup-entries :
    (k : Key) (l : List Element) → lookup k (entries l) ≡ Option.map (λ e. e.value.bytes) (find k l)
unfolding lookup find
lookup-entries k [] = refl
lookup-entries k (e ∷ l) = ground (arith, lookup-entries k l)

remove-back :
    (l : List Element) {e : Element}
    → IsDistinct l
    → back l ≡ some e
    → remove e.addr l ≡ drop_last l
unfolding remove back drop_last
remove-back [] d p = cc
remove-back (x ∷ []) {e} d p = ground arith
remove-back (x ∷ y ∷ l) {e} d p = ground (
  arith,
  remove-back (y ∷ l) {e = e} d.1,
  find-All (IsApart x) e.value.k (y ∷ l) {e = e} d.0,
  find-back (y ∷ l) {e = e} d.1,
)

entries-drop_last : (l : List Element) → entries (drop_last l) ≡ drop_last (entries l)
unfolding drop_last
entries-drop_last [] = refl
entries-drop_last (x ∷ []) = refl
entries-drop_last (x ∷ y ∷ l) = ap (◌∷◌ x.value) (entries-drop_last (y ∷ l))

-- `Get` answers what the list holds, and moves the entry to its front.
pub get-refines :
    {c : Cache} (path : List ℕ) (index : ℕ)
    → IsValid c
    → let k : Key = record { source_path = path; track_index = index } in
      (view (get c path index).0 ≡ (touch k (view c)).0)
      × ((get c path index).1 ≡ (touch k (view c)).1)
unfolding get touch
get-refines {c} path index v =
    let k : Key = record { source_path = path; track_index = index } in
    elim (Option-cases (c.items k)) [
      | inl miss ↦
          let absent : lookup k (view c) ≡ none =
            rw (lookup-entries, sym (v.agree k) ∙ miss) refl in
          ground arith
      | inr (el, hit) ↦
          let found = sym (v.agree k) ∙ hit in
          let present : lookup k (view c) ≡ some el.value.bytes = rw (lookup-entries, found) refl in
          ground (
            arith,
            contains-move_to_front k c.lru found,
            remove-find k c.lru v.distinct found,
            entries-remove_key k c.lru,
            find_key k c.lru found,
          )
    ]

without_absent : (k : Key) (l : List Element) → find k l ≡ none → without k (entries l) ≡ entries l
unfolding find without
without_absent k [] h = refl
without_absent k (e ∷ l) h = ground (arith, without_absent k l)

pub replace-refines :
    {c : Cache} (k : Key)
    → IsValid c
    → (view (replace k c) ≡ without k (view c)) × ((replace k c).max_bytes ≡ c.max_bytes)
unfolding replace discard
replace-refines {c} k v = elim (Option-cases (c.items k)) [
  | inl miss ↦ ground (arith, without_absent k c.lru (sym (v.agree k) ∙ miss))
  | inr (el, hit) ↦
      let found = sym (v.agree k) ∙ hit in
      ground (arith, remove-find k c.lru v.distinct found, entries-remove_key k c.lru)
]

back_total : (x : Element) (l : List Element) → (e : Element) × (back (x ∷ l) ≡ some e)
unfolding back
back_total x [] = (x, refl)
back_total x (y ∷ l) = back_total y l

length-entries : (l : List Element) → length (entries l) ≡ length l
length-entries l = length-map (λ (e : Element). e.value) l

keep_stop :
    (max_bytes : ℕ) (l : List Element)
    → (total l ≤ max_bytes) ⊎ (length l ≤ 1)
    → keep max_bytes (entries l) ≡ entries l
keep_stop m l (inl h) = keep_all m (entries l) (omega (arith, bytes_total-entries l))
keep_stop m l (inr h) = keep_one m (entries l) (omega (arith, length-entries l))

-- One round of the eviction loop, on the list.
evict_round :
    (max_bytes : ℕ) (l : List Element)
    → IsDistinct l
    → max_bytes < total l
    → 1 < length l
    → (e : Element) × (back l ≡ some e)
      × (suc (length (remove e.addr l)) ≡ length l)
      × (keep max_bytes (entries (remove e.addr l)) ≡ keep max_bytes (entries l))
evict_round m [] d over more = absurd (omega arith)
evict_round m (x ∷ l) d over more =
    let (e, last) = back_total x l in
    let gone = remove-back (x ∷ l) d last in
    (
      e,
      last,
      rw gone (ap suc (length-drop_last x l)),
      rw (gone, entries-drop_last)
          (keep-drop_last m (entries (x ∷ l)) (omega (arith, bytes_total-entries (x ∷ l)))
            (omega (arith, length-entries (x ∷ l)))),
    )

-- With fuel for every element the loop ends by its test, and leaves what `keep` keeps.
pub evict-refines :
    (fuel : ℕ) {c : Cache}
    → IsValid c
    → length c.lru ≤ fuel
    → view (evict fuel c) ≡ keep c.max_bytes (view c)
unfolding evict discard
evict-refines zero {c} v h =
    sym (keep_one c.max_bytes (view c) (omega (arith, length-entries c.lru)))
evict-refines (suc fuel) {c} v h =
    elim (Bool-cases (ltb c.max_bytes c.used && ltb 1 (length c.lru))) [
      | inr stop ↦ rw stop (sym (keep_stop c.max_bytes c.lru (ground (arith, v.counted))))
      | inl go ↦
          let (e, last, shorter, same) =
            evict_round c.max_bytes c.lru v.distinct (ground (arith, v.counted)) (ground arith) in
          rw (go, last)
            (evict-refines fuel (discard-IsValid v e.value.k (find-back c.lru v.distinct last))
                (omega arith)
              ∙ same)
    ]

-- `Set` does to the list what `store` says.
pub set-refines :
    {c : Cache} (path : List ℕ) (index : ℕ) (bytes : List ℕ)
    → IsValid c
    → let k : Key = record { source_path = path; track_index = index } in
      view (set c path index bytes) ≡ store c.max_bytes k bytes (view c)
unfolding set store push_front
set-refines {c} path index bytes v =
    let k : Key = record { source_path = path; track_index = index } in
    let (v', absent) = replace-IsValid v k in
    let (same, cap) = replace-refines k v in
    evict-refines _ (push_front-IsValid v' k bytes absent) (omega arith) ∙ rw (same, cap) refl
