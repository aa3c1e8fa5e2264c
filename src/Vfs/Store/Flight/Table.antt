-- ===== src/Vfs/Store/Flight/Table.antt =====
-- A table of the keys in flight: an implementation of the interface to singleflight.
use chipfs.Base.{◌≡◌, ◌≢◌, refl, sym, inl, inr, Bool, true, false, Bool-cases, if◌then◌else◌, Bytes}
use chipfs.Formats.{equal}
use chipfs.Formats.Slices.{equal_refl, equal_sound}
use chipfs.Vfs.Store.Flight.{Group}

abbrev pub put : Bool → (Bytes → Bool) → Bytes → Bytes → Bool
put flag calls key k = if equal key k then flag else calls k

pub put_same : (flag : Bool) (calls : Bytes → Bool) (key : Bytes) → put flag calls key key ≡ flag
put_same flag calls key = rw (equal_refl key) refl

pub put_other :
    (flag : Bool) (calls : Bytes → Bool) (key other : Bytes)
    → other ≢ key
    → put flag calls key other ≡ calls other
put_other flag calls key other ne = elim (Bool-cases (equal key other)) [
  | inl same ↦ absurd (ne (sym (equal_sound key other same)))
  | inr unlike ↦ rw unlike refl
]

abbrev pub table : Group
table = record {
  Calls = Bytes → Bool;
  idle = λ key. false;
  busy = λ calls key. calls key;
  begin = put true;
  finish = put false;
  busy-idle = λ key. refl;
  busy-begin = put_same true;
  busy-begin_ne = put_other true;
  busy-finish = put_same false;
  busy-finish_ne = put_other false;
}
