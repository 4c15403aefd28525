-- ===== src/Filter.antt =====
-- glassbox/signal/filter.py: which news is worth asking the analyst about.
pub mod Words
pub mod News
pub mod Overlap
pub mod Repeats
