-- ===== src/Reflo.antt =====
-- reflo.hxx and reflo.cxx: the discovery of functions.
pub mod Fill
pub mod Search
pub mod Termination
pub mod Endless
pub mod Settle
pub mod Queue
