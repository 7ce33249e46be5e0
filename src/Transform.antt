-- ===== src/Transform.antt =====
-- internal/transform/transform.go: operations on a JSON document by JSON pointers. Decoding and
-- encoding JSON are parameters: an operation's value and the document are trees here. The texts of
-- the errors are left out.
pub mod Tree
pub mod Pointer
pub mod Apply
pub mod Roundtrip
pub mod Protected
pub mod Safety
pub mod Parse
