-- ===== src/Lib.antt =====
-- A verification library for chipfs, the read-only filesystem that shows chiptune files as folders
-- of WAV tracks.
--
-- The parts of the program, and where each is modelled:
--
-- * Cache models internal/cache/cache.go, the LRU store of rendered tracks: `New`, `Get` and `Set`
--   are `new`, `get` and `set`. The state has the map, the linked list, the byte count and the
--   next free address; list nodes are told apart by address, as pointers are. Spec is the promised
--   recency list; Invariant, Refines, Client and Roomy hold the proofs.
-- * Wav models internal/wav/muxer.go: every function of it, `Encode` as `encode` and so on, over
--   buffers of bytes. Layout has the buffers in plain form, Reader is an independent reader of
--   RIFF files and ID3 tags, Riff, Tags and Size hold the proofs.
-- * Formats models internal/formats: what the parsers share in Formats, gbs/gbs.go in Formats/Gbs,
--   nsf/nsf.go in Formats/Nsf and spc/spc.go in Formats/Spc. `Parse` is `parse` in each. An index
--   or a slice out of range, a run-time panic in Go, is the error `out_of_range`. Parts,
--   Gbs/Fields, Nsf/Chunks, Nsf/Fields, Nsf/Written, Spc/Layout and Spc/Written describe the files
--   independently, Nsf/PerTrack, Spc/TextTag and Spc/BinaryTag are about what `Parse` finds in
--   them, Nsf/Safe and Spc/Safe about panics.
-- * Gme models internal/gme/gme.go. The C library is a parameter: a record of its calls, of which
--   no law is assumed. The calls to C that a render makes, `C.free` and `Close` with them, are the
--   lists of Vfs/Render/Calls.
-- * Vfs models internal/vfs/vfs.go: durations and slices (`clampMs`, `fitSamples`, `sliceAt`) in
--   Vfs, `newTrackFile` and `renderTrack` in Vfs/Render, `trackStore.render` and `TrackFile.Read`
--   in Vfs/Store. Render/Loop and Render/Track are about the emulation loop and the file that is
--   made, Render/Calls about the order of the calls to C, Store/Coherent and Store/Reader about
--   the cache and a client that reads to the end. Vfs/Names has `cleanTag`, `sanitizeFilename` and
--   `mostCommon`, Vfs/Tracks the loop of `buildTrackList` behind `parseNSF` and `parseGBS`,
--   Vfs/Parsers the choice of a parser, `parseSPC`, `buildTrackList` as a whole and `RenderTrack`;
--   Parsers/Album follows an NSFe file from its bytes to its tracks. Store/Flight runs any number
--   of calls of `Read` at once: a step of a reader ends at its next use of the cache, whose mutex
--   makes it atomic, or of singleflight. Flight/Leaders, Turns and Led are about who runs the
--   closure of `trackStore.render`, Answers and Finish about what the calls return and that they
--   end, Once, Roomy and Total about how often a track is rendered, at a time and in all.
--   Vfs/Nodes has the nodes with their Getattr, Open and Read handlers and `NewRoot`, Vfs/Scan `populate`, `addChipDir` and the two `OnAdd`, Vfs/Paths
--   `filepath.Join` and `filepath.Base`. Scan/Contents, ChipFolder and Mounted are about what a
--   folder shows, a track's file among it, and what a client reads there; Scan/Album and
--   Scan/SpcTrack follow a file from the bytes on the disk to what is read, Scan/Tool and
--   Scan/ToolSpc compare that with `RenderTrack`. Names/Tidy, Tracks/Named and Paths/Behind say
--   what names, titles, durations and paths come to, in terms of the file alone.
-- * Cmd models the commands: cmd/chipfs/main.go in Cmd/Chipfs (`parseArgs`, `fuseMountOptions`,
--   `run`, `main` as `start`) and cmd/render/main.go in Cmd/Render. Cmd/Flags has what they use of
--   Go's package flag, `strconv.ParseInt` and `strconv.ParseBool` with it.
-- * Base has the helpers that the parts share: Boolean tests, lists over native numbers, byte
--   slices, decimal text, results with an error, signed integers.
--
-- Numbers. A Go int that is a length, a rate or an index is a natural number; a duration that a
-- file or a flag gives is signed. The conversions to uint16 and uint32 are written as remainders.
-- A byte is a number, a string is its bytes, and a sample is the bit pattern of its int16.
--
-- Three readings of the code hold because of what its callers do: `C.int` of an index or of a
-- clamped duration is the number itself, the product in `SampleCount` does not wrap, and the list
-- of tracks of an SPC file is not empty where `populate` takes its first one. What
-- `singleflight.Do` gives the calls that wait is written out in `deliver`, as it is documented.
--
-- Parameters. libgme is the record `Libgme`; `os.ReadFile` is a function `read_file` to a result,
-- and `filepath.Abs` a function `abs` to a path or nothing. No law is assumed of them. The inodes
-- of go-fuse are the record `Fuse` of Vfs/Scan and the calls in flight of singleflight the record
-- `Group` of Vfs/Store/Flight, each with laws on what the code relies on; Scan/Memory and
-- Flight/Table implement them. An inode is a value: a folder is filled before its parent gets it.
-- What `os.ReadDir` finds is a tree of entries.
--
-- Fuel. The eviction loop of the cache runs on the length of its list. The loop of `renderTrack`
-- runs on one round more than the largest number of samples: a round adds a whole chunk, so that
-- is enough. The chunk loop of NSFe runs on the length of the file, and a round moves on by eight
-- bytes at least. The trimming and sanitizing of a string run on its length, and a round takes a
-- byte at least.
--
-- Not modelled: what the programs print and log; the recovery from a panic in `Read`; the release
-- of descriptors; a source directory or file that changes while it is served.
pub mod Base
pub mod Cache
pub mod Wav
pub mod Formats
pub mod Vfs
pub mod Cmd
pub mod Gme
