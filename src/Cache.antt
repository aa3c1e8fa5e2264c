-- ===== src/Cache.antt =====
-- internal/cache/cache.go: the LRU store of rendered tracks. An element of the linked list is a
-- node with an address; the map holds elements, as the Go map holds `*list.Element`. The mutex
-- makes each method one step, so a method is a function on the state.
pub mod Elements
pub mod Invariant
pub mod Spec
pub mod Refines
pub mod Client
pub mod Roomy
mod Tests
use chipfs.Base.{
  ℕ, zero, suc, ◌+◌, ◌-◌, Bool, true, false, ◌&&◌, ◌||◌, Option, none, some, List, [], ◌∷◌, ltb,
  length, ite, if◌then◌else◌, ◌==◌, ℕ_discrete,
}

-- `key`
pub record Key : Type 0 where
  pub source_path : List ℕ
  pub track_index : ℕ

-- Go's `==` on two keys.
unfoldable pub Key-discrete : Discrete Key
unfolding ℕ_discrete
Key-discrete = hlevel ℕ_discrete

-- `entry`; the field that Go calls `data` is `bytes`.
pub record Entry : Type 0 where
  pub k : Key
  pub bytes : List ℕ

-- A `*list.Element`: its address, and the entry that its `Value` points to. An entry is never
-- written after it is made.
pub record Element : Type 0 where
  pub addr : ℕ
  pub value : Entry

-- `Cache`; `next` is the first address that is not allocated yet.
pub record Cache : Type 0 where
  pub max_bytes : ℕ
  pub used : ℕ
  pub items : Key → Option Element
  pub lru : List Element
  pub next : ℕ

abbrev pub size : Element → ℕ
size e = length e.value.bytes

-- `New`
unfoldable pub new : ℕ → Cache
new max_bytes = record { max_bytes = max_bytes; used = 0; items = λ _. none; lru = []; next = 0 }

-- The map with `k` bound to `v`; `none` is `delete`.
unfoldable pub update : (Key → Option Element) → Key → Option Element → Key → Option Element
update items k v j = ite (Key-discrete k j) v (items j)

-- `list.Remove`: unlinks the node at an address.
unfoldable pub remove : ℕ → List Element → List Element
remove a [] = []
remove a (e ∷ l) = if e.addr == a then l else e ∷ remove a l

unfoldable pub contains : ℕ → List Element → Bool
contains a [] = false
contains a (e ∷ l) = e.addr == a || contains a l

-- `list.MoveToFront`, which leaves a list alone that does not hold the node.
unfoldable pub move_to_front : Element → List Element → List Element
move_to_front el l = if contains el.addr l then el ∷ remove el.addr l else l

-- `list.Back`
unfoldable pub back : List Element → Option Element
back [] = none
back (e ∷ []) = some e
back (e ∷ f ∷ l) = back (f ∷ l)

-- `Get`
unfoldable pub get : Cache → List ℕ → ℕ → Cache × Option (List ℕ)
get c source_path track_index =
    elim (c.items (record { source_path = source_path; track_index = track_index })) [
      | none ↦ (c, none)
      | some el ↦ (record c { lru = move_to_front el c.lru }, some el.value.bytes)
    ]

-- The body of `if el, ok := c.items[k]; ok` in `Set`, and of the eviction loop: both take an
-- element out of the count, the list and the map.
unfoldable pub discard : Element → Key → Cache → Cache
discard el k c = record c {
  used = c.used - size el;
  lru = remove el.addr c.lru;
  items = update c.items k none;
}

-- `c.lru.PushFront(&entry{k, data})`, with the map and the count.
unfoldable pub push_front : Key → List ℕ → Cache → Cache
push_front k bytes c =
    let el : Element = record { addr = c.next; value = record { k = k; bytes = bytes } } in
    record c {
      lru = el ∷ c.lru;
      items = update c.items k (some el);
      used = c.used + length bytes;
      next = suc c.next;
    }

-- The loop of `Set`, on fuel: a round takes one element out of the list, so the length of the
-- list is fuel enough. (Go would fault on an empty list; the test keeps one element.)
unfoldable pub evict : ℕ → Cache → Cache
evict zero c = c
evict (suc fuel) c =
    let rest : Cache = elim (back c.lru) [
      | none ↦ c
      | some e ↦ evict fuel (discard e e.value.k c)
    ] in
    if ltb c.max_bytes c.used && ltb 1 (length c.lru) then rest else c

-- The first statement of `Set`, on an existing entry.
unfoldable pub replace : Key → Cache → Cache
replace k c = elim (c.items k) [ none ↦ c | some el ↦ discard el k c ]

-- `Set`
unfoldable pub set : Cache → List ℕ → ℕ → List ℕ → Cache
set c source_path track_index bytes =
    let k : Key = record { source_path = source_path; track_index = track_index } in
    let c' = push_front k bytes (replace k c) in evict (length c'.lru) c'
