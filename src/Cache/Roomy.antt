-- ===== src/Cache/Roomy.antt =====
-- internal/cache/cache.go as long as everything fits: nothing is evicted.
use chipfs.Base.{
  ℕ, zero, suc, ◌+◌, ◌≤◌, ◌≡◌, ◌≢◌, refl, sym, ap, ◌∙◌, inl, inr, ◌&&◌, ltb, Bool-cases, List, ◌∷◌,
  [], ite, length, none, some, Option-cases, arith,
}
use chipfs.Cache.{
  Key, Key-discrete, Entry, Cache, get, set, evict, discard, replace, push_front, back,
}
use chipfs.Cache.Invariant.{IsValid, set-IsValid}
use chipfs.Cache.Spec.{entry, lookup, without, bytes_total, touch, store, keep_all}
use chipfs.Cache.Refines.{view, get-refines, set-refines, replace-refines}
use chipfs.Cache.Client.{key, get-lookup}

without_absent : (k : Key) (l : List Entry) → lookup k l ≡ none → without k l ≡ l
unfolding lookup without
without_absent k [] h = refl
without_absent k (e ∷ l) h = ground (arith, without_absent k l)

-- Taking an entry out takes its bytes out of the total.
pub bytes_total-without :
    (k : Key) (l : List Entry) {bytes : List ℕ}
    → lookup k l ≡ some bytes
    → bytes_total l ≡ length bytes + bytes_total (without k l)
unfolding lookup without
bytes_total-without k [] h = absurd (cc h)
bytes_total-without k (e ∷ l) {bytes} h =
    by_key (Key-discrete e.k k) (λ found. bytes_total-without k l found) h
  where
    by_key :
        (d : Dec (e.k ≡ k))
        → (lookup k l ≡ some bytes → bytes_total l ≡ length bytes + bytes_total (without k l))
        → ite d (some e.bytes) (lookup k l) ≡ some bytes
        → bytes_total (e ∷ l) ≡ length bytes + bytes_total (ite d l (e ∷ without k l))
    by_key (yes same) below found = let mine : e.bytes ≡ bytes = cc found in rw mine refl
    by_key (no other) below found = omega (arith, below found)

bytes_total-touch : (k : Key) (l : List Entry) → bytes_total (touch k l).0 ≡ bytes_total l
unfolding touch
bytes_total-touch k l = elim (Option-cases (lookup k l)) [
  | inl miss ↦ rw (miss, touch) refl
  | inr (b, hit) ↦ rw (hit, touch) (sym (bytes_total-without k l hit))
]

evict-max_bytes : (fuel : ℕ) (c : Cache) → (evict fuel c).max_bytes ≡ c.max_bytes
unfolding evict discard
evict-max_bytes zero c = refl
evict-max_bytes (suc fuel) c = elim (Bool-cases (ltb c.max_bytes c.used && ltb 1 (length c.lru))) [
  | inr stop ↦ rw stop refl
  | inl go ↦ elim (Option-cases (back c.lru)) [
    | inl empty ↦ rw (go, empty) refl
    | inr (e, last) ↦ rw (go, last) (evict-max_bytes fuel (discard e e.value.k c))
  ]
]

pub set-max_bytes :
    {c : Cache} (path : List ℕ) (index : ℕ) (bytes : List ℕ)
    → IsValid c
    → (set c path index bytes).max_bytes ≡ c.max_bytes
unfolding set push_front
set-max_bytes {c} path index bytes v =
    evict-max_bytes _ (push_front (key path index) bytes (replace (key path index) c))
    ∙ (replace-refines (key path index) v).1

pub get-max_bytes :
    (c : Cache) (path : List ℕ) (index : ℕ) → (get c path index).0.max_bytes ≡ c.max_bytes
unfolding get
get-max_bytes c path index = elim (Option-cases (c.items (key path index))) [
  | inl miss ↦ rw (get, miss) refl
  | inr (el, hit) ↦ rw (get, hit) refl
]

lookup-entry_ne :
    (j k : Key) (bytes : List ℕ) (l : List Entry)
    → j ≢ k
    → lookup j (entry k bytes ∷ l) ≡ lookup j l
unfolding lookup
lookup-entry_ne j k bytes l other = ground arith

module _ {c : Cache} (path : List ℕ) (index : ℕ) (v : IsValid c) where
  -- A `Get` changes nothing in the total.
  pub bytes_total-get : bytes_total (view (get c path index).0) ≡ bytes_total (view c)
  bytes_total-get =
      ap bytes_total (get-refines path index v).0 ∙ bytes_total-touch (key path index) (view c)

  module _ (bytes : List ℕ) (absent : (get c path index).1 ≡ none)
      (room : length bytes + bytes_total (view c) ≤ c.max_bytes) where
    -- A `Set` of a key that is not there, with room for its bytes, only adds its entry.
    pub view-set : view (set c path index bytes) ≡ entry (key path index) bytes ∷ view c
    view-set =
        let out : lookup (key path index) (view c) ≡ none =
          sym (get-lookup path index v) ∙ absent in
        set-refines path index bytes v
        ∙ unfold store in
          rw (without_absent (key path index) (view c) out)
            (keep_all c.max_bytes (entry (key path index) bytes ∷ view c) room)

    pub get-set_roomy :
        (path' : List ℕ) (index' : ℕ)
        → key path' index' ≢ key path index
        → (get (set c path index bytes) path' index').1 ≡ (get c path' index').1
    get-set_roomy path' index' other =
        get-lookup path' index' (set-IsValid path index bytes v)
        ∙ ap (lookup (key path' index')) view-set
        ∙ lookup-entry_ne (key path' index') (key path index) bytes (view c) other
        ∙ sym (get-lookup path' index' v)
