-- ===== src/Proto/Contents.antt =====
-- What a message of any type of console/src/generated/kprobe.ts holds: the unknown fields attached to
-- it, and what the format carries.
use kprobe.Proto.Shared.{List, Runtime, Laws, UnknownField, ReadUnknown, WriteUnknown}
use kprobe.Proto.Codec.{
  MessageType, Message, kernel_event_proto, causal_edge_proto, query_causal_chain_request,
  query_causal_chain_response, query_events_request, query_events_response,
  query_time_range_request, query_time_range_response, stream_events_request,
  stream_events_response, start_replay_request, start_replay_response, replay_control_request,
  replay_control_response, replay_status_request, replay_status_response, replay_event_proto,
  watch_replay_request, watch_replay_response,
}
use kprobe.Proto.KernelEventProto
use kprobe.Proto.CausalEdgeProto
use kprobe.Proto.QueryCausalChainRequest
use kprobe.Proto.QueryCausalChainResponse
use kprobe.Proto.QueryEventsRequest
use kprobe.Proto.QueryEventsResponse
use kprobe.Proto.QueryTimeRangeRequest
use kprobe.Proto.QueryTimeRangeResponse
use kprobe.Proto.StreamEventsRequest
use kprobe.Proto.StreamEventsResponse
use kprobe.Proto.StartReplayRequest
use kprobe.Proto.StartReplayResponse
use kprobe.Proto.ReplayControlRequest
use kprobe.Proto.ReplayControlResponse
use kprobe.Proto.ReplayStatusRequest
use kprobe.Proto.ReplayStatusResponse
use kprobe.Proto.ReplayEventProto
use kprobe.Proto.WatchReplayRequest
use kprobe.Proto.WatchReplayResponse

-- The unknown fields that are attached to a message.

abbrev pub attached : (rt : Runtime) (t : MessageType) → Message rt t → List (UnknownField rt.Byte)
attached rt kernel_event_proto m = m.unknown
attached rt causal_edge_proto m = m.unknown
attached rt query_causal_chain_request m = m.unknown
attached rt query_causal_chain_response m = m.unknown
attached rt query_events_request m = m.unknown
attached rt query_events_response m = m.unknown
attached rt query_time_range_request m = m.unknown
attached rt query_time_range_response m = m.unknown
attached rt stream_events_request m = m.unknown
attached rt stream_events_response m = m.unknown
attached rt start_replay_request m = m.unknown
attached rt start_replay_response m = m.unknown
attached rt replay_control_request m = m.unknown
attached rt replay_control_response m = m.unknown
attached rt replay_status_request m = m.unknown
attached rt replay_status_response m = m.unknown
attached rt replay_event_proto m = m.unknown
attached rt watch_replay_request m = m.unknown
attached rt watch_replay_response m = m.unknown

abbrev pub attach :
    (rt : Runtime) (t : MessageType) → Message rt t → List (UnknownField rt.Byte) → Message rt t
attach rt kernel_event_proto m us = record m { unknown = us }
attach rt causal_edge_proto m us = record m { unknown = us }
attach rt query_causal_chain_request m us = record m { unknown = us }
attach rt query_causal_chain_response m us = record m { unknown = us }
attach rt query_events_request m us = record m { unknown = us }
attach rt query_events_response m us = record m { unknown = us }
attach rt query_time_range_request m us = record m { unknown = us }
attach rt query_time_range_response m us = record m { unknown = us }
attach rt stream_events_request m us = record m { unknown = us }
attach rt stream_events_response m us = record m { unknown = us }
attach rt start_replay_request m us = record m { unknown = us }
attach rt start_replay_response m us = record m { unknown = us }
attach rt replay_control_request m us = record m { unknown = us }
attach rt replay_control_response m us = record m { unknown = us }
attach rt replay_status_request m us = record m { unknown = us }
attach rt replay_status_response m us = record m { unknown = us }
attach rt replay_event_proto m us = record m { unknown = us }
attach rt watch_replay_request m us = record m { unknown = us }
attach rt watch_replay_response m us = record m { unknown = us }

-- What the format carries of a message of a type.
abbrev pub Fits :
    {rt : Runtime} (laws : Laws rt) (options : ReadUnknown rt.Byte) (w : WriteUnknown rt.Byte)
    (t : MessageType)
    → Message rt t
    → Type 0
Fits laws options w kernel_event_proto = KernelEventProto.Fits laws options w
Fits laws options w causal_edge_proto = CausalEdgeProto.Fits laws options w
Fits laws options w query_causal_chain_request = QueryCausalChainRequest.Fits laws options w
Fits laws options w query_causal_chain_response = QueryCausalChainResponse.Fits laws options w
Fits laws options w query_events_request = QueryEventsRequest.Fits laws options w
Fits laws options w query_events_response = QueryEventsResponse.Fits laws options w
Fits laws options w query_time_range_request = QueryTimeRangeRequest.Fits laws options w
Fits laws options w query_time_range_response = QueryTimeRangeResponse.Fits laws options w
Fits laws options w stream_events_request = StreamEventsRequest.Fits laws options w
Fits laws options w stream_events_response = StreamEventsResponse.Fits laws options w
Fits laws options w start_replay_request = StartReplayRequest.Fits laws options w
Fits laws options w start_replay_response = StartReplayResponse.Fits laws options w
Fits laws options w replay_control_request = ReplayControlRequest.Fits laws options w
Fits laws options w replay_control_response = ReplayControlResponse.Fits laws options w
Fits laws options w replay_status_request = ReplayStatusRequest.Fits laws options w
Fits laws options w replay_status_response = ReplayStatusResponse.Fits laws options w
Fits laws options w replay_event_proto = ReplayEventProto.Fits laws options w
Fits laws options w watch_replay_request = WatchReplayRequest.Fits laws options w
Fits laws options w watch_replay_response = WatchReplayResponse.Fits laws options w
