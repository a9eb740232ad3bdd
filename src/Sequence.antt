-- ===== src/Sequence.antt =====
-- src/detail/sequence.hpp and src/detail/sequence.cpp: the trackers of a record's two sequence
-- numbers. A method returns its observation with the tracker that it leaves.
pub mod Rdt
pub mod Ft
