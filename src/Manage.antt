-- ===== src/Manage.antt =====
-- glassbox/manage.py: the barriers of an open position. The texts of a reason are left out, but for
-- which rule of the bell gate spoke.
pub mod Views
pub mod Decide
pub mod Order
pub mod Stops
