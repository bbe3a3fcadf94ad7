-- ===== src/Analysis.antt =====
-- src/Research/Analysis and src/Research/ResearchAnalysis.cpp: the offline analysis of a bundle.
pub mod Order
pub mod Scalars
pub mod Event
pub mod Book
pub mod Depth
