-- ===== src/Indices.antt =====
-- The secondary indices of a partition: cpp/include/Indices.hpp and cpp/src/Indices.cpp.
-- A hash map is an association list, a row id a ℕ below 2 ^ 32, and `reserve` is left out, since it
-- changes no value. `estimateBytes` and the bucket counts are diagnostics and have no model.
pub mod Buckets
pub mod Dates
pub mod Grid
pub mod Build
