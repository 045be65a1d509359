-- ===== src/Sets.antt =====
-- The package sets: sorted slices of unique elements, and bitmaps.
pub mod Ordered
pub mod Sorted
pub mod Bit
mod Tests
