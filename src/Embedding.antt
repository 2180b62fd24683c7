-- ===== src/Embedding.antt =====
-- The two content spaces of domain/policy/embedding.py.
pub mod Sparse
pub mod Dense
