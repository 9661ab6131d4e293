-- ===== src/SparseArray.antt =====
-- `sparse_array` of skate/containers/sparse_array.h: an array that stores runs of elements under the
-- index of their first one.
pub mod Chunk
pub mod Defs
pub mod Invariant
pub mod Lookup
pub mod Ref
pub mod Store
pub mod Push
pub mod Unstore
pub mod Local
pub mod Range
pub mod Resize
pub mod Turn
pub mod Shift
pub mod Erase
pub mod Refine
mod Tests
