-- ===== src/Api.antt =====
-- backend/internal/api: the HTTP contract, its mapping to the internal models, and the handlers.
pub mod Wire
pub mod Mappers
pub mod Outgoing
pub mod User
pub mod Handler
pub mod Public
pub mod Served
