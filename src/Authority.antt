-- ===== src/Authority.antt =====
-- packages/authority: the in-memory storage, and the shape of what the authority signs.
pub mod Order
pub mod Marks
pub mod Shape
pub mod Subordinates
pub mod Events
