-- ===== src/Cmd.antt =====
-- The commands of the repository, cmd/chipfs and cmd/render, and what they use of Go's flag.
pub mod Flags
pub mod Chipfs
pub mod Render
mod Tests
