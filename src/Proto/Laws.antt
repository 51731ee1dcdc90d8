-- ===== src/Proto/Laws.antt =====
-- The codec of console/src/generated/kprobe.ts as a whole: what is written reads back, and reading
-- ends.
use kprobe.Base.{◌+◌, sym, ap, subst, ◌∙◌}
use kprobe.Proto.Shared.{
  ℕ, List, ◌++◌, length, nat_key, Runtime, Laws, ReadUnknown, WriteUnknown, ok, Reader, Passes,
  Passes-read_to_end, RoundTrips, Settles, AllSettle, read_to_end-Settles, read_to_end, ◌≡◌, refl,
}
use kprobe.Proto.Contents.{Fits}
use kprobe.Proto.Segments.{reader}
use kprobe.Proto.Codec.{
  MessageType, Message, create, read_field, internal_binary_read, internal_binary_write,
  kernel_event_proto, causal_edge_proto, query_causal_chain_request, query_causal_chain_response,
  query_events_request, query_events_response, query_time_range_request, query_time_range_response,
  stream_events_request, stream_events_response, start_replay_request, start_replay_response,
  replay_control_request, replay_control_response, replay_status_request, replay_status_response,
  replay_event_proto, watch_replay_request, watch_replay_response,
}
use kprobe.Proto.KernelEventProto
use kprobe.Proto.CausalEdgeProto
use kprobe.Proto.QueryCausalChainRequest
use kprobe.Proto.QueryCausalChainResponse
use kprobe.Proto.QueryEventsRequest
use kprobe.Proto.QueryEventsResponse
use kprobe.Proto.QueryTimeRangeRequest
use kprobe.Proto.QueryTimeRangeResponse
use kprobe.Proto.StreamEventsRequest
use kprobe.Proto.StreamEventsResponse
use kprobe.Proto.StartReplayRequest
use kprobe.Proto.StartReplayResponse
use kprobe.Proto.ReplayControlRequest
use kprobe.Proto.ReplayControlResponse
use kprobe.Proto.ReplayStatusRequest
use kprobe.Proto.ReplayStatusResponse
use kprobe.Proto.ReplayEventProto
use kprobe.Proto.WatchReplayRequest
use kprobe.Proto.WatchReplayResponse

module _ (rt : Runtime) (options : ReadUnknown rt.Byte) where
  pub read_lem :
      (t : MessageType)
      → internal_binary_read rt options t ≡ read_to_end rt (read_field rt options t)
  unfolding KernelEventProto.internal_binary_read CausalEdgeProto.internal_binary_read
      QueryCausalChainRequest.internal_binary_read QueryCausalChainResponse.internal_binary_read
      QueryEventsRequest.internal_binary_read QueryEventsResponse.internal_binary_read
      QueryTimeRangeRequest.internal_binary_read QueryTimeRangeResponse.internal_binary_read
      StreamEventsRequest.internal_binary_read StreamEventsResponse.internal_binary_read
      StartReplayRequest.internal_binary_read StartReplayResponse.internal_binary_read
      ReplayControlRequest.internal_binary_read ReplayControlResponse.internal_binary_read
      ReplayStatusRequest.internal_binary_read ReplayStatusResponse.internal_binary_read
      ReplayEventProto.internal_binary_read WatchReplayRequest.internal_binary_read
      WatchReplayResponse.internal_binary_read
  read_lem kernel_event_proto = refl
  read_lem causal_edge_proto = refl
  read_lem query_causal_chain_request = refl
  read_lem query_causal_chain_response = refl
  read_lem query_events_request = refl
  read_lem query_events_response = refl
  read_lem query_time_range_request = refl
  read_lem query_time_range_response = refl
  read_lem stream_events_request = refl
  read_lem stream_events_response = refl
  read_lem start_replay_request = refl
  read_lem start_replay_response = refl
  read_lem replay_control_request = refl
  read_lem replay_control_response = refl
  read_lem replay_status_request = refl
  read_lem replay_status_response = refl
  read_lem replay_event_proto = refl
  read_lem watch_replay_request = refl
  read_lem watch_replay_response = refl

module _ {rt : Runtime} (laws : Laws rt) (options : ReadUnknown rt.Byte) where
  pub read_of_Passes :
      (t : MessageType) (bytes : List rt.Byte) (m m' : Message rt t)
      → Passes laws (read_field rt options t) bytes m m'
      → (p : ℕ) (rest : List rt.Byte)
      → internal_binary_read rt options t (length bytes) m (reader p (bytes ++ rest))
        ≡ ok (m', reader (p + length bytes) rest)
  read_of_Passes t bytes m m' pass p rest =
      ap (λ f. f (length bytes) m (reader p (bytes ++ rest))) (read_lem rt options t)
      ∙ Passes-read_to_end laws (read_field rt options t) bytes m m' pass p rest

  read_field-Settles : (t : MessageType) → AllSettle (read_field rt options t)
  read_field-Settles kernel_event_proto = KernelEventProto.read_field-Settles laws options
  read_field-Settles causal_edge_proto = CausalEdgeProto.read_field-Settles laws options
  read_field-Settles query_causal_chain_request =
      QueryCausalChainRequest.read_field-Settles laws options
  read_field-Settles query_causal_chain_response =
      QueryCausalChainResponse.read_field-Settles laws options
  read_field-Settles query_events_request = QueryEventsRequest.read_field-Settles laws options
  read_field-Settles query_events_response = QueryEventsResponse.read_field-Settles laws options
  read_field-Settles query_time_range_request =
      QueryTimeRangeRequest.read_field-Settles laws options
  read_field-Settles query_time_range_response =
      QueryTimeRangeResponse.read_field-Settles laws options
  read_field-Settles stream_events_request = StreamEventsRequest.read_field-Settles laws options
  read_field-Settles stream_events_response = StreamEventsResponse.read_field-Settles laws options
  read_field-Settles start_replay_request = StartReplayRequest.read_field-Settles laws options
  read_field-Settles start_replay_response = StartReplayResponse.read_field-Settles laws options
  read_field-Settles replay_control_request = ReplayControlRequest.read_field-Settles laws options
  read_field-Settles replay_control_response = ReplayControlResponse.read_field-Settles laws options
  read_field-Settles replay_status_request = ReplayStatusRequest.read_field-Settles laws options
  read_field-Settles replay_status_response = ReplayStatusResponse.read_field-Settles laws options
  read_field-Settles replay_event_proto = ReplayEventProto.read_field-Settles laws options
  read_field-Settles watch_replay_request = WatchReplayRequest.read_field-Settles laws options
  read_field-Settles watch_replay_response = WatchReplayResponse.read_field-Settles laws options

  -- `internalBinaryRead` ends on any bytes, on to any message and with any length it is told: it gives
  -- a message, with no more bytes left than before, or the exception of the reader or of an unknown
  -- field, and the fuel of the loop always suffices.
  pub codec-Settles :
      (t : MessageType) (size : ℕ) (m : Message rt t) (r : Reader rt.Byte)
      → Settles (length r.left) (internal_binary_read rt options t size m r)
  codec-Settles t size m r =
      subst (λ f. Settles (length r.left) (f size m r)) (sym (read_lem rt options t))
        (read_to_end-Settles laws (read_field rt options t) (read_field-Settles t) size m r)

module _ {rt : Runtime} (laws : Laws rt) (options : ReadUnknown rt.Byte)
    (w : WriteUnknown rt.Byte) where
  pub write-Passes :
      (t : MessageType) (m : Message rt t)
      → Fits laws options w t m
      → Passes laws (read_field rt options t) (internal_binary_write rt w t m) (create rt t) m
  write-Passes kernel_event_proto = KernelEventProto.write-Passes laws options w
  write-Passes causal_edge_proto = CausalEdgeProto.write-Passes laws options w
  write-Passes query_causal_chain_request = QueryCausalChainRequest.write-Passes laws options w
  write-Passes query_causal_chain_response = QueryCausalChainResponse.write-Passes laws options w
  write-Passes query_events_request = QueryEventsRequest.write-Passes laws options w
  write-Passes query_events_response = QueryEventsResponse.write-Passes laws options w
  write-Passes query_time_range_request = QueryTimeRangeRequest.write-Passes laws options w
  write-Passes query_time_range_response = QueryTimeRangeResponse.write-Passes laws options w
  write-Passes stream_events_request = StreamEventsRequest.write-Passes laws options w
  write-Passes stream_events_response = StreamEventsResponse.write-Passes laws options w
  write-Passes start_replay_request = StartReplayRequest.write-Passes laws options w
  write-Passes start_replay_response = StartReplayResponse.write-Passes laws options w
  write-Passes replay_control_request = ReplayControlRequest.write-Passes laws options w
  write-Passes replay_control_response = ReplayControlResponse.write-Passes laws options w
  write-Passes replay_status_request = ReplayStatusRequest.write-Passes laws options w
  write-Passes replay_status_response = ReplayStatusResponse.write-Passes laws options w
  write-Passes replay_event_proto = ReplayEventProto.write-Passes laws options w
  write-Passes watch_replay_request = WatchReplayRequest.write-Passes laws options w
  write-Passes watch_replay_response = WatchReplayResponse.write-Passes laws options w

  -- Under the documented behaviour of the runtime, a message of any of the 19 types whose fields the
  -- format carries (texts that UTF-8 carries, numbers within their types, no double that passes for 0
  -- without being the default, nested messages shorter than 2 ^ 32 bytes) comes back whole, nested
  -- messages included, when what `internalBinaryWrite` appends for it is read on to a fresh message,
  -- whatever follows; the reader then stands right behind it. The unknown fields that are attached to
  -- it and to its nested messages come back too, where both options keep them; under other options
  -- there are none, and the caller has no handler of its own for writing them.
  pub internal_binary_read-internal_binary_write :
      (t : MessageType) (m : Message rt t)
      → Fits laws options w t m
      → RoundTrips
          (internal_binary_read rt options t)
          (internal_binary_write rt w t)
          (create rt t)
          m
  internal_binary_read-internal_binary_write t m fits =
      read_of_Passes laws options t (internal_binary_write rt w t m) (create rt t) m
        (write-Passes t m fits)
