-- ===== src/Proto/Codec.antt =====
-- console/src/generated/kprobe.ts: the message types that the file exports, under one roof.
use kprobe.Proto.Shared.{
  ℕ, String, List, Runtime, ReadUnknown, WriteUnknown, Result, Reader, Fields,
}
use kprobe.Proto.KernelEventProto
use kprobe.Proto.KernelEventProto.{KernelEventProto}
use kprobe.Proto.CausalEdgeProto
use kprobe.Proto.CausalEdgeProto.{CausalEdgeProto}
use kprobe.Proto.QueryCausalChainRequest
use kprobe.Proto.QueryCausalChainRequest.{QueryCausalChainRequest}
use kprobe.Proto.QueryCausalChainResponse
use kprobe.Proto.QueryCausalChainResponse.{QueryCausalChainResponse}
use kprobe.Proto.QueryEventsRequest
use kprobe.Proto.QueryEventsRequest.{QueryEventsRequest}
use kprobe.Proto.QueryEventsResponse
use kprobe.Proto.QueryEventsResponse.{QueryEventsResponse}
use kprobe.Proto.QueryTimeRangeRequest
use kprobe.Proto.QueryTimeRangeRequest.{QueryTimeRangeRequest}
use kprobe.Proto.QueryTimeRangeResponse
use kprobe.Proto.QueryTimeRangeResponse.{QueryTimeRangeResponse}
use kprobe.Proto.StreamEventsRequest
use kprobe.Proto.StreamEventsRequest.{StreamEventsRequest}
use kprobe.Proto.StreamEventsResponse
use kprobe.Proto.StreamEventsResponse.{StreamEventsResponse}
use kprobe.Proto.StartReplayRequest
use kprobe.Proto.StartReplayRequest.{StartReplayRequest}
use kprobe.Proto.StartReplayResponse
use kprobe.Proto.StartReplayResponse.{StartReplayResponse}
use kprobe.Proto.ReplayControlRequest
use kprobe.Proto.ReplayControlRequest.{ReplayControlRequest}
use kprobe.Proto.ReplayControlResponse
use kprobe.Proto.ReplayControlResponse.{ReplayControlResponse}
use kprobe.Proto.ReplayStatusRequest
use kprobe.Proto.ReplayStatusRequest.{ReplayStatusRequest}
use kprobe.Proto.ReplayStatusResponse
use kprobe.Proto.ReplayStatusResponse.{ReplayStatusResponse}
use kprobe.Proto.ReplayEventProto
use kprobe.Proto.ReplayEventProto.{ReplayEventProto}
use kprobe.Proto.WatchReplayRequest
use kprobe.Proto.WatchReplayRequest.{WatchReplayRequest}
use kprobe.Proto.WatchReplayResponse
use kprobe.Proto.WatchReplayResponse.{WatchReplayResponse}

pub data MessageType : Type 0 where
  kernel_event_proto : MessageType
  causal_edge_proto : MessageType
  query_causal_chain_request : MessageType
  query_causal_chain_response : MessageType
  query_events_request : MessageType
  query_events_response : MessageType
  query_time_range_request : MessageType
  query_time_range_response : MessageType
  stream_events_request : MessageType
  stream_events_response : MessageType
  start_replay_request : MessageType
  start_replay_response : MessageType
  replay_control_request : MessageType
  replay_control_response : MessageType
  replay_status_request : MessageType
  replay_status_response : MessageType
  replay_event_proto : MessageType
  watch_replay_request : MessageType
  watch_replay_response : MessageType

-- The messages of a type.
abbrev pub Message : Runtime → MessageType → Type 0
Message rt kernel_event_proto = KernelEventProto rt.Byte
Message rt causal_edge_proto = CausalEdgeProto rt.Byte
Message rt query_causal_chain_request = QueryCausalChainRequest rt.Byte
Message rt query_causal_chain_response = QueryCausalChainResponse rt.Byte
Message rt query_events_request = QueryEventsRequest rt.Byte
Message rt query_events_response = QueryEventsResponse rt.Byte
Message rt query_time_range_request = QueryTimeRangeRequest rt.Byte
Message rt query_time_range_response = QueryTimeRangeResponse rt.Byte
Message rt stream_events_request = StreamEventsRequest rt.Byte
Message rt stream_events_response = StreamEventsResponse rt.Byte
Message rt start_replay_request = StartReplayRequest rt
Message rt start_replay_response = StartReplayResponse rt.Byte
Message rt replay_control_request = ReplayControlRequest rt.Byte
Message rt replay_control_response = ReplayControlResponse rt.Byte
Message rt replay_status_request = ReplayStatusRequest rt.Byte
Message rt replay_status_response = ReplayStatusResponse rt.Byte
Message rt replay_event_proto = ReplayEventProto rt.Byte
Message rt watch_replay_request = WatchReplayRequest rt.Byte
Message rt watch_replay_response = WatchReplayResponse rt.Byte

abbrev pub type_name : MessageType → String
type_name kernel_event_proto = KernelEventProto.type_name
type_name causal_edge_proto = CausalEdgeProto.type_name
type_name query_causal_chain_request = QueryCausalChainRequest.type_name
type_name query_causal_chain_response = QueryCausalChainResponse.type_name
type_name query_events_request = QueryEventsRequest.type_name
type_name query_events_response = QueryEventsResponse.type_name
type_name query_time_range_request = QueryTimeRangeRequest.type_name
type_name query_time_range_response = QueryTimeRangeResponse.type_name
type_name stream_events_request = StreamEventsRequest.type_name
type_name stream_events_response = StreamEventsResponse.type_name
type_name start_replay_request = StartReplayRequest.type_name
type_name start_replay_response = StartReplayResponse.type_name
type_name replay_control_request = ReplayControlRequest.type_name
type_name replay_control_response = ReplayControlResponse.type_name
type_name replay_status_request = ReplayStatusRequest.type_name
type_name replay_status_response = ReplayStatusResponse.type_name
type_name replay_event_proto = ReplayEventProto.type_name
type_name watch_replay_request = WatchReplayRequest.type_name
type_name watch_replay_response = WatchReplayResponse.type_name

abbrev pub field_numbers : MessageType → List ℕ
field_numbers kernel_event_proto = KernelEventProto.field_numbers
field_numbers causal_edge_proto = CausalEdgeProto.field_numbers
field_numbers query_causal_chain_request = QueryCausalChainRequest.field_numbers
field_numbers query_causal_chain_response = QueryCausalChainResponse.field_numbers
field_numbers query_events_request = QueryEventsRequest.field_numbers
field_numbers query_events_response = QueryEventsResponse.field_numbers
field_numbers query_time_range_request = QueryTimeRangeRequest.field_numbers
field_numbers query_time_range_response = QueryTimeRangeResponse.field_numbers
field_numbers stream_events_request = StreamEventsRequest.field_numbers
field_numbers stream_events_response = StreamEventsResponse.field_numbers
field_numbers start_replay_request = StartReplayRequest.field_numbers
field_numbers start_replay_response = StartReplayResponse.field_numbers
field_numbers replay_control_request = ReplayControlRequest.field_numbers
field_numbers replay_control_response = ReplayControlResponse.field_numbers
field_numbers replay_status_request = ReplayStatusRequest.field_numbers
field_numbers replay_status_response = ReplayStatusResponse.field_numbers
field_numbers replay_event_proto = ReplayEventProto.field_numbers
field_numbers watch_replay_request = WatchReplayRequest.field_numbers
field_numbers watch_replay_response = WatchReplayResponse.field_numbers

module _ (rt : Runtime) where
  open rt use {Byte}

  abbrev pub create : (t : MessageType) → Message rt t
  create kernel_event_proto = KernelEventProto.create rt
  create causal_edge_proto = CausalEdgeProto.create rt
  create query_causal_chain_request = QueryCausalChainRequest.create rt
  create query_causal_chain_response = QueryCausalChainResponse.create rt
  create query_events_request = QueryEventsRequest.create rt
  create query_events_response = QueryEventsResponse.create rt
  create query_time_range_request = QueryTimeRangeRequest.create rt
  create query_time_range_response = QueryTimeRangeResponse.create rt
  create stream_events_request = StreamEventsRequest.create rt
  create stream_events_response = StreamEventsResponse.create rt
  create start_replay_request = StartReplayRequest.create rt
  create start_replay_response = StartReplayResponse.create rt
  create replay_control_request = ReplayControlRequest.create rt
  create replay_control_response = ReplayControlResponse.create rt
  create replay_status_request = ReplayStatusRequest.create rt
  create replay_status_response = ReplayStatusResponse.create rt
  create replay_event_proto = ReplayEventProto.create rt
  create watch_replay_request = WatchReplayRequest.create rt
  create watch_replay_response = WatchReplayResponse.create rt

  abbrev pub read_field : ReadUnknown Byte → (t : MessageType) → Fields Byte (Message rt t)
  read_field options kernel_event_proto = KernelEventProto.read_field rt options
  read_field options causal_edge_proto = CausalEdgeProto.read_field rt options
  read_field options query_causal_chain_request = QueryCausalChainRequest.read_field rt options
  read_field options query_causal_chain_response = QueryCausalChainResponse.read_field rt options
  read_field options query_events_request = QueryEventsRequest.read_field rt options
  read_field options query_events_response = QueryEventsResponse.read_field rt options
  read_field options query_time_range_request = QueryTimeRangeRequest.read_field rt options
  read_field options query_time_range_response = QueryTimeRangeResponse.read_field rt options
  read_field options stream_events_request = StreamEventsRequest.read_field rt options
  read_field options stream_events_response = StreamEventsResponse.read_field rt options
  read_field options start_replay_request = StartReplayRequest.read_field rt options
  read_field options start_replay_response = StartReplayResponse.read_field rt options
  read_field options replay_control_request = ReplayControlRequest.read_field rt options
  read_field options replay_control_response = ReplayControlResponse.read_field rt options
  read_field options replay_status_request = ReplayStatusRequest.read_field rt options
  read_field options replay_status_response = ReplayStatusResponse.read_field rt options
  read_field options replay_event_proto = ReplayEventProto.read_field rt options
  read_field options watch_replay_request = WatchReplayRequest.read_field rt options
  read_field options watch_replay_response = WatchReplayResponse.read_field rt options

  abbrev pub internal_binary_read :
      ReadUnknown Byte
      → (t : MessageType) → ℕ
      → Message rt t
      → Reader Byte
      → Result (Message rt t × Reader Byte)
  internal_binary_read options kernel_event_proto = KernelEventProto.internal_binary_read rt options
  internal_binary_read options causal_edge_proto = CausalEdgeProto.internal_binary_read rt options
  internal_binary_read options query_causal_chain_request =
      QueryCausalChainRequest.internal_binary_read rt options
  internal_binary_read options query_causal_chain_response =
      QueryCausalChainResponse.internal_binary_read rt options
  internal_binary_read options query_events_request =
      QueryEventsRequest.internal_binary_read rt options
  internal_binary_read options query_events_response =
      QueryEventsResponse.internal_binary_read rt options
  internal_binary_read options query_time_range_request =
      QueryTimeRangeRequest.internal_binary_read rt options
  internal_binary_read options query_time_range_response =
      QueryTimeRangeResponse.internal_binary_read rt options
  internal_binary_read options stream_events_request =
      StreamEventsRequest.internal_binary_read rt options
  internal_binary_read options stream_events_response =
      StreamEventsResponse.internal_binary_read rt options
  internal_binary_read options start_replay_request =
      StartReplayRequest.internal_binary_read rt options
  internal_binary_read options start_replay_response =
      StartReplayResponse.internal_binary_read rt options
  internal_binary_read options replay_control_request =
      ReplayControlRequest.internal_binary_read rt options
  internal_binary_read options replay_control_response =
      ReplayControlResponse.internal_binary_read rt options
  internal_binary_read options replay_status_request =
      ReplayStatusRequest.internal_binary_read rt options
  internal_binary_read options replay_status_response =
      ReplayStatusResponse.internal_binary_read rt options
  internal_binary_read options replay_event_proto = ReplayEventProto.internal_binary_read rt options
  internal_binary_read options watch_replay_request =
      WatchReplayRequest.internal_binary_read rt options
  internal_binary_read options watch_replay_response =
      WatchReplayResponse.internal_binary_read rt options

  abbrev pub internal_binary_write :
      WriteUnknown Byte → (t : MessageType) → Message rt t → List Byte
  internal_binary_write options kernel_event_proto =
      KernelEventProto.internal_binary_write rt options
  internal_binary_write options causal_edge_proto = CausalEdgeProto.internal_binary_write rt options
  internal_binary_write options query_causal_chain_request =
      QueryCausalChainRequest.internal_binary_write rt options
  internal_binary_write options query_causal_chain_response =
      QueryCausalChainResponse.internal_binary_write rt options
  internal_binary_write options query_events_request =
      QueryEventsRequest.internal_binary_write rt options
  internal_binary_write options query_events_response =
      QueryEventsResponse.internal_binary_write rt options
  internal_binary_write options query_time_range_request =
      QueryTimeRangeRequest.internal_binary_write rt options
  internal_binary_write options query_time_range_response =
      QueryTimeRangeResponse.internal_binary_write rt options
  internal_binary_write options stream_events_request =
      StreamEventsRequest.internal_binary_write rt options
  internal_binary_write options stream_events_response =
      StreamEventsResponse.internal_binary_write rt options
  internal_binary_write options start_replay_request =
      StartReplayRequest.internal_binary_write rt options
  internal_binary_write options start_replay_response =
      StartReplayResponse.internal_binary_write rt options
  internal_binary_write options replay_control_request =
      ReplayControlRequest.internal_binary_write rt options
  internal_binary_write options replay_control_response =
      ReplayControlResponse.internal_binary_write rt options
  internal_binary_write options replay_status_request =
      ReplayStatusRequest.internal_binary_write rt options
  internal_binary_write options replay_status_response =
      ReplayStatusResponse.internal_binary_write rt options
  internal_binary_write options replay_event_proto =
      ReplayEventProto.internal_binary_write rt options
  internal_binary_write options watch_replay_request =
      WatchReplayRequest.internal_binary_write rt options
  internal_binary_write options watch_replay_response =
      WatchReplayResponse.internal_binary_write rt options
