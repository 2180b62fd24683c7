-- ===== src/Adapters.antt =====
-- infrastructure/adapters: the embedding and the explanation provider. The HTTP exchange, `json.loads`
-- and `blake2b` are parameters.
pub mod Embedder
pub mod Explainer
