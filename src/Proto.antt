-- ===== src/Proto.antt =====
-- console/src/generated/kprobe.ts: the binary codec of the messages of kprobe.proto.
pub mod Runtime
pub mod Reader
pub mod Segments
pub mod Unknowns
pub mod Settles
pub mod Scalars
pub mod Shared
pub mod KernelEventProto
pub mod CausalEdgeProto
pub mod QueryCausalChainRequest
pub mod QueryCausalChainResponse
pub mod QueryEventsRequest
pub mod QueryEventsResponse
pub mod QueryTimeRangeRequest
pub mod QueryTimeRangeResponse
pub mod StreamEventsRequest
pub mod StreamEventsResponse
pub mod StartReplayRequest
pub mod StartReplayResponse
pub mod ReplayControlRequest
pub mod ReplayControlResponse
pub mod ReplayStatusRequest
pub mod ReplayStatusResponse
pub mod ReplayEventProto
pub mod WatchReplayRequest
pub mod WatchReplayResponse
pub mod Codec
pub mod Contents
pub mod Laws
pub mod Foreign
pub mod Services
pub mod Tokens
mod Tests
