-- ===== src/Cmd/Render/Written.antt =====
-- The command line of cmd/render/main.go with a file and a track, and what it writes.
use mathlib.Core.Option
use chipfs.Base.{Option}
