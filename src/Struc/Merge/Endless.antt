-- ===== src/Struc/Merge/Endless.antt =====
-- Two structures that point to themselves, as the nodes of lists do, are never merged.
