-- ===== src/Vfs/Nodes.antt =====
-- internal/vfs/vfs.go: the nodes of the tree, and their handlers of FUSE requests. The operating
-- system's answers (`os.Stat`, `os.Open`, `ReadAt`) are arguments. An mtime is `none` where Go has
-- the zero time.
use chipfs.Base.{ℕ, ◌+◌, List, [], ◌∷◌, Option, none, some, Bytes, Result, ok, err}
use chipfs.Cache.{Cache, new}
use chipfs.Vfs.{TrackEntry, Options, apply_defaults}
use chipfs.Vfs.Render.{TrackFile}
use chipfs.Vfs.Store.{Errno, eio}

-- `ChipDir`, less its store
pub record ChipDir : Type 0 where
  pub source_path : Bytes
  pub mtime : Option ℕ
  pub tracks : List TrackEntry

-- `Root`: `cache` is the one in its store.
pub record Root : Type 0 where
  pub source_dir : Bytes
  pub default_play_ms : ℕ
  pub default_fade_ms : ℕ
  pub cache : Cache

-- What stands behind an inode: a `Root`, `SourceDir`, `RealFile`, `ChipDir` or `TrackFile`.
pub data Node : Type 0 where
  root : Root → Node
  source_dir : Option ℕ → Node
  real_file : Bytes → Node
  chip_dir : ChipDir → Node
  track_file : Option ℕ → TrackFile → Node

-- `fuse.Attr`: the mode is a sum of bits.
pub record Attr : Type 0 where
  pub mode : ℕ
  pub size : ℕ
  pub times : Option ℕ

abbrev pub dir_mode : ℕ
dir_mode = 0x4000 + 0x16D

abbrev pub file_mode : ℕ
file_mode = 0x8000 + 0x124

-- `setTimes`
unfoldable pub set_times : Attr → Option ℕ → Attr
set_times out none = out
set_times out (some t) = record out { times = some t }

-- What `os.Stat` says: the size and the mtime, or an errno.
pub record Stat : Type 0 where
  pub size : ℕ
  pub mtime : Option ℕ

-- `SourceDir.Getattr` and `ChipDir.Getattr`
unfoldable pub source_dir_getattr : Option ℕ → Attr → Attr
unfolding set_times
source_dir_getattr mtime out = set_times (record out { mode = dir_mode }) mtime

unfoldable pub chip_dir_getattr : ChipDir → Attr → Attr
unfolding set_times
chip_dir_getattr d out = set_times (record out { mode = dir_mode }) d.mtime

-- `RealFile.Getattr`; the error is what `fs.ToErrno` makes of the failed `os.Stat`.
unfoldable pub real_file_getattr : {E : Type 0} → Result E Stat → Attr → Result E Attr
unfolding set_times
real_file_getattr (err e) out = err e
real_file_getattr (ok st) out =
    ok (set_times (record out { mode = file_mode; size = st.size }) st.mtime)

-- `Root.Getattr`, which takes no notice of a failed `os.Stat`
unfoldable pub root_getattr : {E : Type 0} → Result E Stat → Attr → Attr
unfolding set_times
root_getattr (err e) out = record out { mode = dir_mode }
root_getattr (ok st) out = set_times (record out { mode = dir_mode }) st.mtime

-- `TrackFile.Getattr`
unfoldable pub track_file_getattr : Option ℕ → TrackFile → Attr → Attr
unfolding set_times
track_file_getattr mtime f out =
    set_times (record out { mode = file_mode; size = f.estimated_size }) mtime

-- The open flags of go-fuse that the handlers return
pub data OpenFlags : Type 0 where
  keep_cache : OpenFlags
  direct_io : OpenFlags

-- `RealFile.Open`, given what `os.Open` says, and `TrackFile.Open`
unfoldable pub real_file_open :
    {E Handle : Type 0} → Result E Handle → Result E (Handle × OpenFlags)
real_file_open (err e) = err e
real_file_open (ok file) = ok (file, keep_cache)

unfoldable pub track_file_open : TrackFile → OpenFlags
track_file_open f = direct_io

-- How `ReadAt` ends, beside the bytes that it read
pub data ReadEnd : Type 0 where
  full : ReadEnd
  eof : ReadEnd
  failed : ReadEnd

-- `realFileHandle.Read`
unfoldable pub real_file_read : Bytes × ReadEnd → Result Errno Bytes
real_file_read (bytes, full) = ok bytes
real_file_read (bytes, eof) = ok bytes
real_file_read (bytes, failed) = err eio

-- `realFileHandle.Release`, which reports no error of `Close`
unfoldable pub real_file_release : {E : Type 0} → Option E → Result Errno (Unit {0})
real_file_release close_error = ok tt

-- `NewRoot`; `stat` is `os.Stat`.
pub data RootError : Type 0 where
  empty_source : RootError
  not_accessible : RootError

unfoldable pub new_root :
    {E : Type 0} → (Bytes → Result E Stat) → Bytes → Options → Result RootError Root
new_root stat [] opts = err empty_source
new_root stat (c ∷ dir) opts = elim (stat (c ∷ dir)) [
  | err e ↦ err not_accessible
  | ok st ↦
      let d = apply_defaults opts in
      ok (record {
        source_dir = c ∷ dir;
        default_play_ms = d.play_ms;
        default_fade_ms = d.fade_ms;
        cache = new d.cache_bytes;
      })
]
