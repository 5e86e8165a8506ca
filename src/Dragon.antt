-- ===== src/Dragon.antt =====
-- The DragonCache: the shared pool's rings (include/dragon_ring.h), its heartbeat header
-- (include/dragon_map.h), and the hub through which the core uses them (src/dragoncache.cpp).
pub mod Ring
pub mod Map
pub mod Hub
pub mod Carve
