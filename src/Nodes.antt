-- ===== src/Nodes.antt =====
-- src/nodes: the in-memory nodes and the operations on them, one module for each group.
pub mod Setattr
pub mod Valid
pub mod New
pub mod Cache
pub mod Attrs
pub mod Paths
pub mod Dir
pub mod Map
pub mod Handles
