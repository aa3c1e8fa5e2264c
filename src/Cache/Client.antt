-- ===== src/Cache/Client.antt =====
-- What a user of internal/cache/cache.go can rely on: reads after writes, the capacity, the order
-- of eviction, and whole runs of calls.
use chipfs.Base.{
  ℕ, zero, suc, ◌+◌, ◌≤◌, ◌≡◌, ◌≢◌, refl, sym, ap, ◌∙◌, ◌⊎◌, inl, inr, Option, none, some, List, [],
  ◌∷◌, ◌++◌, length, arith, Option-cases,
}
use mathlib.Core.Path.{ap₂}
use chipfs.Cache.{Key, Entry, Cache, new, back, get, discard, push_front, evict, replace, set}
use chipfs.Cache.Invariant.{IsValid, new-IsValid, get-IsValid, set-IsValid}
use chipfs.Cache.Spec.{
  entry, lookup, without, bytes_total, fit, IsCut, keep, touch, store, keep-IsCut,
}
use chipfs.Cache.Refines.{view, get-refines, set-refines, bytes_total-entries}

abbrev pub key : List ℕ → ℕ → Key
key path index = record { source_path = path; track_index = index }

-- `Get` returns what the list has under the key.
pub get-lookup :
    {c : Cache} (path : List ℕ) (index : ℕ)
    → IsValid c
    → (get c path index).1 ≡ lookup (key path index) (view c)
get-lookup {c} path index v = (get-refines path index v).1 ∙ touch-lookup (key path index) (view c)
  where
    touch-lookup : (k : Key) (l : List Entry) → (touch k l).1 ≡ lookup k l
    touch-lookup k l = unfold touch in ground arith

pub lookup-without : (j k : Key) (l : List Entry) → j ≢ k → lookup j (without k l) ≡ lookup j l
unfolding lookup without
lookup-without j k [] h = refl
lookup-without j k (e ∷ l) h = ground (arith, lookup-without j k l h)

lookup-fit :
    (j : Key) (used max_bytes : ℕ) (l : List Entry)
    → (lookup j (fit used max_bytes l) ≡ lookup j l) ⊎ (lookup j (fit used max_bytes l) ≡ none)
unfolding lookup fit
lookup-fit j used m [] = inr refl
lookup-fit j used m (e ∷ l) = ground (arith, lookup-fit j (used + length e.bytes) m l)

lookup-store_self :
    (max_bytes : ℕ) (k : Key) (bytes : List ℕ) (l : List Entry)
    → lookup k (store max_bytes k bytes l) ≡ some bytes
unfolding lookup store
lookup-store_self m k bytes l = ground arith

lookup-store_ne :
    (max_bytes : ℕ) (j k : Key) (bytes : List ℕ) (l : List Entry)
    → j ≢ k
    → (lookup j (store max_bytes k bytes l) ≡ lookup j l)
      ⊎ (lookup j (store max_bytes k bytes l) ≡ none)
unfolding lookup store
lookup-store_ne m j k bytes l h =
    ground (arith, lookup-fit j (length bytes) m (without k l), lookup-without j k l h)

lookup-touch : (j k : Key) (l : List Entry) → lookup j (touch k l).0 ≡ lookup j l
unfolding touch lookup
lookup-touch j k l = elim (Option-cases (lookup k l)) [
  | inl miss ↦ ground arith
  | inr (b, hit) ↦ ground (arith, lookup-without j k l)
]

module _ {c : Cache} (path : List ℕ) (index : ℕ) (v : IsValid c) where
  -- In a valid cache a `Get` right after a `Set` of the same path and track returns the bytes that
  -- were set, whatever their size.
  pub get-set_self : (bytes : List ℕ) → (get (set c path index bytes) path index).1 ≡ some bytes
  get-set_self bytes =
      get-lookup path index (set-IsValid path index bytes v)
      ∙ ap (lookup (key path index)) (set-refines path index bytes v)
      ∙ lookup-store_self c.max_bytes (key path index) bytes (view c)

  -- In a valid cache a `Set` changes nothing that a `Get` of another key returns, but that the entry
  -- may have been evicted: the answer is the one from before, or a miss.
  pub get-set_ne :
      (bytes : List ℕ) (path' : List ℕ) (index' : ℕ)
      → key path' index' ≢ key path index
      → ((get (set c path index bytes) path' index').1 ≡ (get c path' index').1)
        ⊎ ((get (set c path index bytes) path' index').1 ≡ none)
  get-set_ne bytes path' index' other =
      rw
        (
          get-lookup path' index' (set-IsValid path index bytes v),
          get-lookup path' index' v,
          set-refines path index bytes v,
        )
        (lookup-store_ne c.max_bytes (key path' index') (key path index) bytes (view c) other)

  -- In a valid cache a `Get`, hit or miss, changes no answer of a later `Get` of any key.
  pub get-get :
      (path' : List ℕ) (index' : ℕ)
      → (get (get c path index).0 path' index').1 ≡ (get c path' index').1
  get-get path' index' =
      rw
        (
          get-lookup path' index' (get-IsValid v path index),
          get-lookup path' index' v,
          (get-refines path index v).0,
        )
        (lookup-touch (key path' index') (key path index) (view c))

  -- In a valid cache a `Set` puts its entry in front of the other keys' entries and keeps a prefix
  -- of that order: what goes is the least recently used part. `used` is the bytes of what is kept,
  -- which fit the capacity unless the new entry is alone; and no more than needed goes: the most
  -- recent entry of those that go would not have fitted.
  pub set_evicts_oldest :
      (bytes : List ℕ)
      → let l = entry (key path index) bytes ∷ without (key path index) (view c) in
        let kept = view (set c path index bytes) in
        (gone : List Entry) × (l ≡ kept ++ gone)
        × ((set c path index bytes).used ≡ bytes_total kept)
        × ((bytes_total kept ≤ c.max_bytes) ⊎ (kept ≡ entry (key path index) bytes ∷ []))
        × IsCut 0 c.max_bytes kept gone
  set_evicts_oldest bytes =
      let e = entry (key path index) bytes in
      let (gone, split, bound, cut) =
        keep-IsCut c.max_bytes e (without (key path index) (view c)) in
      let counted = (set-IsValid path index bytes v).counted in
      let stored : view (set c path index bytes)
          ≡ keep c.max_bytes (e ∷ without (key path index) (view c)) =
        unfold store in set-refines path index bytes v in
      (gone, rw stored split, counted ∙ sym (bytes_total-entries _), rw stored bound, rw stored cut)

-- A method call of a client.
pub data Call : Type 0 where
  get_call : List ℕ → ℕ → Call
  set_call : List ℕ → ℕ → List ℕ → Call

-- The calls in the order in which they take the mutex, with the answers of the `Get`s.
unfoldable pub run : List Call → Cache → Cache × List (Option (List ℕ))
run [] c = (c, [])
run (get_call path index ∷ calls) c =
    let (c', answer) = get c path index in
    let (c'', answers) = run calls c' in (c'', answer ∷ answers)
run (set_call path index bytes ∷ calls) c = run calls (set c path index bytes)

unfoldable pub run_list : ℕ → List Call → List Entry → List Entry × List (Option (List ℕ))
run_list m [] l = (l, [])
run_list m (get_call path index ∷ calls) l =
    let (l', answer) = touch (key path index) l in
    let (l'', answers) = run_list m calls l' in (l'', answer ∷ answers)
run_list m (set_call path index bytes ∷ calls) l =
    run_list m calls (store m (key path index) bytes l)

pub get-max_bytes :
    (c : Cache) (path : List ℕ) (index : ℕ) → (get c path index).0.max_bytes ≡ c.max_bytes
unfolding get
get-max_bytes c path index = ground arith

evict-max_bytes : (fuel : ℕ) (c : Cache) → (evict fuel c).max_bytes ≡ c.max_bytes
unfolding evict discard
evict-max_bytes zero c = refl
evict-max_bytes (suc fuel) c = elim (Option-cases (back c.lru)) [
  | inl missing ↦ ground arith
  | inr (e, last) ↦ ground (arith, evict-max_bytes fuel (discard e e.value.k c))
]

pub set-max_bytes :
    (c : Cache) (path : List ℕ) (index : ℕ) (bytes : List ℕ)
    → (set c path index bytes).max_bytes ≡ c.max_bytes
unfolding set push_front replace discard
set-max_bytes c path index bytes = evict-max_bytes _ _ ∙ ground arith

-- From a valid cache any sequence of `Get` and `Set` calls leaves a valid cache, whose recency list
-- and whose answers are those of the plain list of `Spec`.
pub run-refines :
    (calls : List Call) {c : Cache}
    → IsValid c
    → IsValid (run calls c).0
      × (view (run calls c).0 ≡ (run_list c.max_bytes calls (view c)).0)
      × ((run calls c).1 ≡ (run_list c.max_bytes calls (view c)).1)
unfolding run run_list
run-refines [] v = (v, refl, refl)
run-refines (get_call path index ∷ calls) {c} v =
    let (valid, same, answers) = run-refines calls (get-IsValid v path index) in
    let (moved, answer) = get-refines path index v in
    let cap = get-max_bytes c path index in
    (valid, rw (cap, moved) at same, ap₂ ◌∷◌ answer (rw (cap, moved) at answers))
run-refines (set_call path index bytes ∷ calls) {c} v =
    let (valid, same, answers) = run-refines calls (set-IsValid path index bytes v) in
    let cap = set-max_bytes c path index bytes in
    let stored = set-refines path index bytes v in
    (
      valid,
      same ∙ ap₂ (λ m l. (run_list m calls l).0) cap stored,
      answers ∙ ap₂ (λ m l. (run_list m calls l).1) cap stored,
    )

-- The same from the cache that `New` makes, at every capacity and for every sequence of calls.
pub new-run-refines :
    (max_bytes : ℕ) (calls : List Call)
    → IsValid (run calls (new max_bytes)).0
      × (view (run calls (new max_bytes)).0 ≡ (run_list max_bytes calls []).0)
      × ((run calls (new max_bytes)).1 ≡ (run_list max_bytes calls []).1)
unfolding new
new-run-refines m calls = run-refines calls (new-IsValid m)
