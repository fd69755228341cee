-- ===== src/Server.antt =====
-- internal/server: the dispatch of request frames.
pub mod Handler
