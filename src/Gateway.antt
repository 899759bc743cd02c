-- ===== src/Gateway.antt =====
-- The controlled tool gateway, src/orbitmind/toolgateway, with its bridge from the admission
-- records, src/orbitmind/orchestration/tool_gateway_lifecycle.py.
pub mod Contracts
pub mod Policy
pub mod Lifecycle
pub mod Safety
