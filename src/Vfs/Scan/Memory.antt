-- ===== src/Vfs/Scan/Memory.antt =====
-- Inodes with their children in a list: an implementation of the interface to go-fuse.
use chipfs.Base.{
  ◌≡◌, ◌≢◌, refl, sym, ap, inl, inr, Bool, true, false, Bool-cases, if◌then◌else◌, Option, none,
  some, Option-cases, Bytes,
}
use chipfs.Formats.{equal}
use chipfs.Formats.Slices.{equal_refl, equal_sound}
use chipfs.Vfs.Nodes.{Node}
use chipfs.Vfs.Scan.{Fuse}

mutual
  pub data Inode : Type 0 where
    make : Node → Children → Inode

  pub data Children : Type 0 where
    none_left : Children
    next : Bytes → Inode → Children → Children

abbrev pub find : Bytes → Children → Option Inode
find name none_left = none
find name (next x c cs) = if equal x name then some c else find name cs

abbrev pub child : Inode → Bytes → Option Inode
child (make n cs) name = find name cs

abbrev pub node : Inode → Node
node (make n cs) = n

abbrev pub put : Bytes → Inode → Inode → Inode
put name c (make n cs) = make n (next name c cs)

abbrev pub put_unless : Option Inode → Bytes → Inode → Inode → Inode × Bool
put_unless none name c i = (put name c i, true)
put_unless (some d) name c i = (i, false)

abbrev pub add_child : Inode → Bytes → Inode → Inode × Bool
add_child i name c = put_unless (child i name) name c i

pub when_taken :
    (i : Inode) (name : Bytes) (c d : Inode)
    → child i name ≡ some d
    → add_child i name c ≡ (i, false)
when_taken i name c d h = ap (λ o. put_unless o name c i) h

when_free :
    (i : Inode) (name : Bytes) (c : Inode)
    → child i name ≡ none
    → add_child i name c ≡ (put name c i, true)
when_free i name c h = ap (λ o. put_unless o name c i) h

put_same : (i : Inode) (name : Bytes) (c : Inode) → child (put name c i) name ≡ some c
put_same (make n cs) name c = rw (equal_refl name) refl

put_other :
    (i : Inode) (name : Bytes) (c : Inode) (other : Bytes)
    → equal name other ≡ false
    → child (put name c i) other ≡ child i other
put_other (make n cs) name c other h = rw h refl

node_put : (i : Inode) (name : Bytes) (c : Inode) → node (put name c i) ≡ node i
node_put (make n cs) name c = refl

pub node-add_child : (i : Inode) (name : Bytes) (c : Inode) → node (add_child i name c).0 ≡ node i
node-add_child i name c = elim (Option-cases (child i name)) [
  | inl free ↦ rw (when_free i name c free) (node_put i name c)
  | inr (d, taken) ↦ rw (when_taken i name c d taken) refl
]

pub add_child_free :
    (i : Inode) (name : Bytes) (c : Inode)
    → child i name ≡ none
    → ((add_child i name c).1 ≡ true) × (child (add_child i name c).0 name ≡ some c)
add_child_free i name c free = rw (when_free i name c free) (refl, put_same i name c)

pub child-add_child_other :
    (i : Inode) (name : Bytes) (c : Inode) (other : Bytes)
    → other ≢ name
    → child (add_child i name c).0 other ≡ child i other
child-add_child_other i name c other ne = elim (Option-cases (child i name)) [
  | inr (d, taken) ↦ rw (when_taken i name c d taken) refl
  | inl free ↦ elim (Bool-cases (equal name other)) [
    | inl same ↦ absurd (ne (sym (equal_sound name other same)))
    | inr unlike ↦ rw (when_free i name c free) (put_other i name c other unlike)
  ]
]

abbrev pub memory : Fuse
memory = record {
  Inode = Inode;
  inode = λ n. make n none_left;
  add_child = add_child;
  child = child;
  node = node;
  node-inode = λ n. refl;
  child-inode = λ n name. refl;
  node-add_child = node-add_child;
  add_child_taken = when_taken;
  add_child_free = add_child_free;
  child-add_child_other = child-add_child_other;
}
