-- ===== src/Model.antt =====
-- src/Model.cpp and include/exchange_probe/Model.hpp.
pub mod Kinds
pub mod Outcomes
pub mod Products
pub mod Capabilities
