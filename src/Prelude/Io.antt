-- ===== src/Prelude/Io.antt =====
-- Fallible code that acts on a world: the type, the ways to build it, and what it keeps.
mod Defs
pub mod Keeps
pub use Defs.*
