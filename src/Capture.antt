-- ===== src/Capture.antt =====
-- src/Research/HtxReconnectPolicy.hpp and the capture of ResearchCapture.cpp.
pub mod Reconnect
pub mod Attempts
pub mod Writer
