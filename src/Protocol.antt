-- ===== src/Protocol.antt =====
-- remote_agent_protocol.py: the JSON protocol of the remote endpoint. `Ids` has the checks of one
-- value, `Request` the validation of a request envelope, `Dispatch` the server's side of one
-- request and `Client` the client's.
pub mod Ids
pub mod Request
pub mod Dispatch
pub mod Client
pub mod RoundTrip
