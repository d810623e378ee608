-- ===== src/Order.antt =====
-- Sorted vectors: `sort_unstable` and `dedup` of a `Vec`, and `BTreeSet`, for the ordered types of
-- the source (numbers, options, vectors in lexicographic order).
pub mod Sort
pub mod SortLaws
pub mod Instances
pub mod Canonical
pub mod BinarySearch
