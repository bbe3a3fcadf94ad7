-- ===== src/Contracts.antt =====
-- src/Contracts.cpp: what a probe asks of the answer of a venue. The children are its parts:
-- scalars, envelopes and row schemas of REST answers, the wire formats, and the two validators of
-- WebSocket messages.
pub mod Scalars
pub mod Envelope
pub mod Rest
pub mod Wire
pub mod Search
pub mod Ws
