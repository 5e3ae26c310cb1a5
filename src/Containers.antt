-- ===== src/Containers.antt =====
-- The containers of internal/lib.
pub mod Stack
pub mod BoundStackMap
pub mod Set
pub mod Collection
