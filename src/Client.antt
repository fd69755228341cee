-- ===== src/Client.antt =====
-- pkg/client: the clients of a broker.
pub mod Producer
