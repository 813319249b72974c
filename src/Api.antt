-- ===== src/Api.antt =====
-- client/pdh_api: the client's side of the protocol.
pub mod Types
pub mod Response
pub mod Transport
pub mod Arrays
pub mod Results
pub mod Commands
pub mod Analysis
