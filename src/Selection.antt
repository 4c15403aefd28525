-- ===== src/Selection.antt =====
-- glassbox/chain.py: the strikes that express a view.
pub mod Quotes
pub mod Build
pub mod Picks
pub mod Sides
pub mod Shapes
