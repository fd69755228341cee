-- ===== src/Protocol.antt =====
-- internal/protocol: the wire codec.
pub mod Stream
pub mod Trips
pub mod Codec
pub mod Frame
pub mod Requests
pub mod Responses
pub mod Api
pub mod AnyRequest
pub mod AnyResponse
