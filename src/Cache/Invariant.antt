-- ===== src/Cache/Invariant.antt =====
-- The invariant of the cache, and that every method keeps it.
use chipfs.Base.{
  ℕ, zero, suc, ◌<◌, ◌≡◌, ◌≢◌, refl, sym, ◌∙◌, ◌&&◌, none, some, List, [], ◌∷◌, length, ltb, All,
  arith, inl, inr, Option-cases, Bool-cases,
}
use chipfs.Cache.{
  Key, Element, Cache, new, update, remove, back, get, discard, push_front, evict, replace, set,
}
use chipfs.Cache.Elements.{
  find, total, IsDistinct, IsApart, find-All, All-remove, IsDistinct-remove, find_key, remove-find,
  find-remove_key, total-remove_key, remove-find-IsApart, All-of_absent, find-back,
  contains-move_to_front,
}

-- The map finds exactly the element that the list has for a key, `used` counts the bytes of the
-- list, and no key and no address occurs twice.
pub record IsValid (c : Cache) : Type 0 where
  pub fresh : All (λ e. e.addr < c.next) c.lru
  pub distinct : IsDistinct c.lru
  pub agree : (k : Key) → c.items k ≡ find k c.lru
  pub counted : c.used ≡ total c.lru

pub new-IsValid : (max_bytes : ℕ) → IsValid (new max_bytes)
unfolding new find
new-IsValid max_bytes = record { fresh = tt; distinct = tt; agree = λ k. refl; counted = refl }

module _ {c : Cache} (v : IsValid c) where
  All-fresh_found :
      (k : Key) {el : Element}
      → find k c.lru ≡ some el
      → All (λ e. e.addr < c.next) (el ∷ remove el.addr c.lru)
  All-fresh_found k {el} found = (
    find-All (λ e. e.addr < c.next) k c.lru v.fresh found,
    All-remove (λ e. e.addr < c.next) el.addr c.lru v.fresh,
  )

  pub get-IsValid : (path : List ℕ) (index : ℕ) → IsValid (get c path index).0
  unfolding get find
  get-IsValid path index =
      let k : Key = record { source_path = path; track_index = index } in
      elim (Option-cases (c.items k)) [
        | inl miss ↦ rw (miss, get) v
        | inr (el, hit) ↦
            let found = sym (v.agree k) ∙ hit in
            rw (hit, get, contains-move_to_front k c.lru found)
              (record {
                fresh = All-fresh_found k found;
                distinct = (
                  remove-find-IsApart k c.lru v.distinct found,
                  IsDistinct-remove el.addr c.lru v.distinct,
                );
                agree = λ j. rw (remove-find k c.lru v.distinct found) (
                    ground (
                      arith,
                      v.agree j,
                      find-remove_key j k c.lru v.distinct,
                      find_key k c.lru found,
                    ));
                counted =
                    rw (remove-find k c.lru v.distinct found)
                      (omega (arith, v.counted, total-remove_key k c.lru found));
              })
      ]

  pub discard-IsValid : (k : Key) {el : Element} → find k c.lru ≡ some el → IsValid (discard el k c)
  unfolding discard update
  discard-IsValid k {el} found = record {
    fresh = All-remove (λ e. e.addr < c.next) el.addr c.lru v.fresh;
    distinct = IsDistinct-remove el.addr c.lru v.distinct;
    agree = λ j.
        rw (remove-find k c.lru v.distinct found)
          (ground (arith, v.agree j, find-remove_key j k c.lru v.distinct));
    counted =
        rw (remove-find k c.lru v.distinct found)
          (omega (arith, v.counted, total-remove_key k c.lru found));
  }

  find-discard :
      (k : Key) {el : Element} → find k c.lru ≡ some el → find k (discard el k c).lru ≡ none
  unfolding discard
  find-discard k {el} found =
      rw (remove-find k c.lru v.distinct found)
        (ground (arith, find-remove_key k k c.lru v.distinct))

  pub replace-IsValid : (k : Key) → IsValid (replace k c) × (find k (replace k c).lru ≡ none)
  unfolding replace
  replace-IsValid k = elim (Option-cases (c.items k)) [
    | inl miss ↦ rw (miss, replace) (v, sym (v.agree k) ∙ miss)
    | inr (el, hit) ↦
        let found = sym (v.agree k) ∙ hit in
        rw (hit, replace) (discard-IsValid k found, find-discard k found)
  ]

  All-absent-fresh :
      (k : Key) (l : List Element)
      → All (λ e. e.addr < c.next) l
      → All (λ x. x.value.k ≢ k) l
      → All (IsApart (record { addr = c.next; value = record { k = k; bytes = [] } })) l
  All-absent-fresh k [] f a = tt
  All-absent-fresh k (x ∷ l) f a = ((ground arith, a.0), All-absent-fresh k l f.1 a.1)

  All-fresh-suc :
      (l : List Element) → All (λ e. e.addr < c.next) l → All (λ e. e.addr < suc c.next) l
  All-fresh-suc [] f = tt
  All-fresh-suc (x ∷ l) f = (omega arith, All-fresh-suc l f.1)

  pub push_front-IsValid :
      (k : Key) (bytes : List ℕ) → find k c.lru ≡ none → IsValid (push_front k bytes c)
  unfolding push_front update find
  push_front-IsValid k bytes absent = record {
    fresh = (omega arith, All-fresh-suc c.lru v.fresh);
    distinct = (All-absent-fresh k c.lru v.fresh (All-of_absent k c.lru absent), v.distinct);
    agree = λ j. ground (arith, v.agree j);
    counted = omega (arith, v.counted);
  }

pub evict-IsValid : (fuel : ℕ) {c : Cache} → IsValid c → IsValid (evict fuel c)
unfolding evict
evict-IsValid zero v = v
evict-IsValid (suc fuel) {c} v =
    elim (Bool-cases (ltb c.max_bytes c.used && ltb 1 (length c.lru))) [
      | inr stop ↦ rw stop v
      | inl go ↦ rw go (elim (Option-cases (back c.lru)) [
        | inl missing ↦ rw missing v
        | inr (e, last) ↦
            rw last
              (evict-IsValid fuel (discard-IsValid v e.value.k (find-back c.lru v.distinct last)))
      ])
    ]

pub set-IsValid :
    {c : Cache} (path : List ℕ) (index : ℕ) (bytes : List ℕ)
    → IsValid c
    → IsValid (set c path index bytes)
unfolding set
set-IsValid path index bytes v =
    let k : Key = record { source_path = path; track_index = index } in
    let (v', absent) = replace-IsValid v k in evict-IsValid _ (push_front-IsValid v' k bytes absent)
