-- ===== src/Runtime.antt =====
-- application/node_runtime.py: the node execution protocol, the idempotency keys and the route keys.
pub mod RouteKeys
pub mod Keys
pub mod Nodes
pub mod Execute
pub mod Identity
