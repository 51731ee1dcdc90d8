-- ===== src/Proto/Foreign.antt =====
-- Fields that a message type does not list: the default case of every `switch` of
-- console/src/generated/kprobe.ts.
use kprobe.Base.{◌+◌, ◌<◌, false, ap, ◌∙◌}
use kprobe.Proto.Shared.{
  ℕ, List, [], ◌∷◌, ◌++◌, length, contains, nat_key, Runtime, Laws, WireType, UnknownField,
  ReadUnknown, WriteUnknown, ok, Reader, Passes, Passes-append, read_unknown, default_case,
  read_to_end, ◌≡◌, refl, arith,
}
use kprobe.Proto.Contents.{attach, attached, Fits}
use kprobe.Proto.Runtime.{IsFieldNo, AllForeign, written}
use kprobe.Proto.Reader.{error, unknown_field}
use kprobe.Proto.Segments.{reader, call-put, round, Passes-nil, Passes-field}
use kprobe.Proto.Codec.{
  MessageType, Message, type_name, field_numbers, create, read_field, internal_binary_read,
  internal_binary_write, kernel_event_proto, causal_edge_proto, query_causal_chain_request,
  query_causal_chain_response, query_events_request, query_events_response,
  query_time_range_request, query_time_range_response, stream_events_request,
  stream_events_response, start_replay_request, start_replay_response, replay_control_request,
  replay_control_response, replay_status_request, replay_status_response, replay_event_proto,
  watch_replay_request, watch_replay_response,
}
use kprobe.Proto.Laws.{read_lem, read_of_Passes, write-Passes}
use kprobe.Proto.KernelEventProto
use kprobe.Proto.CausalEdgeProto
use kprobe.Proto.QueryCausalChainRequest
use kprobe.Proto.QueryCausalChainResponse
use kprobe.Proto.QueryEventsRequest
use kprobe.Proto.QueryEventsResponse
use kprobe.Proto.QueryTimeRangeRequest
use kprobe.Proto.QueryTimeRangeResponse
use kprobe.Proto.StreamEventsRequest
use kprobe.Proto.StreamEventsResponse
use kprobe.Proto.StartReplayRequest
use kprobe.Proto.StartReplayResponse
use kprobe.Proto.ReplayControlRequest
use kprobe.Proto.ReplayControlResponse
use kprobe.Proto.ReplayStatusRequest
use kprobe.Proto.ReplayStatusResponse
use kprobe.Proto.ReplayEventProto
use kprobe.Proto.WatchReplayRequest
use kprobe.Proto.WatchReplayResponse

module _ {rt : Runtime} (laws : Laws rt) (options : ReadUnknown rt.Byte) where
  foreign_case :
      (t : MessageType) (n : ℕ) (wt : WireType) (m : Message rt t) (r : Reader rt.Byte)
      → contains (field_numbers t) n ≡ false
      → read_field rt options t n wt m r
        ≡ default_case rt options (type_name t) (attach rt t m) n wt (attached rt t m) r
  foreign_case kernel_event_proto =
      KernelEventProto.read_field-foreign laws options WriteUnknown.omit
  foreign_case causal_edge_proto = CausalEdgeProto.read_field-foreign laws options WriteUnknown.omit
  foreign_case query_causal_chain_request =
      QueryCausalChainRequest.read_field-foreign laws options WriteUnknown.omit
  foreign_case query_causal_chain_response =
      QueryCausalChainResponse.read_field-foreign laws options WriteUnknown.omit
  foreign_case query_events_request =
      QueryEventsRequest.read_field-foreign laws options WriteUnknown.omit
  foreign_case query_events_response =
      QueryEventsResponse.read_field-foreign laws options WriteUnknown.omit
  foreign_case query_time_range_request =
      QueryTimeRangeRequest.read_field-foreign laws options WriteUnknown.omit
  foreign_case query_time_range_response =
      QueryTimeRangeResponse.read_field-foreign laws options WriteUnknown.omit
  foreign_case stream_events_request =
      StreamEventsRequest.read_field-foreign laws options WriteUnknown.omit
  foreign_case stream_events_response =
      StreamEventsResponse.read_field-foreign laws options WriteUnknown.omit
  foreign_case start_replay_request =
      StartReplayRequest.read_field-foreign laws options WriteUnknown.omit
  foreign_case start_replay_response =
      StartReplayResponse.read_field-foreign laws options WriteUnknown.omit
  foreign_case replay_control_request =
      ReplayControlRequest.read_field-foreign laws options WriteUnknown.omit
  foreign_case replay_control_response =
      ReplayControlResponse.read_field-foreign laws options WriteUnknown.omit
  foreign_case replay_status_request =
      ReplayStatusRequest.read_field-foreign laws options WriteUnknown.omit
  foreign_case replay_status_response =
      ReplayStatusResponse.read_field-foreign laws options WriteUnknown.omit
  foreign_case replay_event_proto =
      ReplayEventProto.read_field-foreign laws options WriteUnknown.omit
  foreign_case watch_replay_request =
      WatchReplayRequest.read_field-foreign laws options WriteUnknown.omit
  foreign_case watch_replay_response =
      WatchReplayResponse.read_field-foreign laws options WriteUnknown.omit

attach_self :
    (rt : Runtime) (t : MessageType) (m : Message rt t) → attach rt t m (attached rt t m) ≡ m
attach_self rt kernel_event_proto m = refl
attach_self rt causal_edge_proto m = refl
attach_self rt query_causal_chain_request m = refl
attach_self rt query_causal_chain_response m = refl
attach_self rt query_events_request m = refl
attach_self rt query_events_response m = refl
attach_self rt query_time_range_request m = refl
attach_self rt query_time_range_response m = refl
attach_self rt stream_events_request m = refl
attach_self rt stream_events_response m = refl
attach_self rt start_replay_request m = refl
attach_self rt start_replay_response m = refl
attach_self rt replay_control_request m = refl
attach_self rt replay_control_response m = refl
attach_self rt replay_status_request m = refl
attach_self rt replay_status_response m = refl
attach_self rt replay_event_proto m = refl
attach_self rt watch_replay_request m = refl
attach_self rt watch_replay_response m = refl

module _ {rt : Runtime} (laws : Laws rt) (t : MessageType) where
  open rt use {Byte, put_tag, get_tag, skip}

  -- Under `readUnknownField: "throw"`, where the bytes of a message that is not empty begin with the
  -- tag of a valid number that its type does not list, reading it is an error that names the number, the wire
  -- type and the message's type, for each of the 19 types.
  pub read-foreign_reject :
      (n : ℕ) (wt : WireType) (size : ℕ) (m : Message rt t) (p : ℕ) (rest : List Byte)
      → IsFieldNo n
      → contains (field_numbers t) n ≡ false
      → 0 < size
      → internal_binary_read rt ReadUnknown.reject t size m (reader p (put_tag n wt ++ rest))
        ≡ error (unknown_field n wt (type_name t))
  unfolding read_to_end read_unknown
  read-foreign_reject n wt size m p rest valid foreign pos_ =
      let r = reader p (put_tag n wt ++ rest) in
      let fields = read_field rt ReadUnknown.reject t in
      ap (λ f. f size m r) (read_lem rt ReadUnknown.reject t)
      ∙ round laws fields (length r.left) (p + size) m r (ground arith)
      ∙ rw (call-put get_tag (put_tag n wt) (n, wt) p rest (laws.tag_lem n wt valid rest)) (
          rw
            (foreign_case laws ReadUnknown.reject t n wt m (reader (p + length (put_tag n wt)) rest)
              foreign)
            refl)

  Passes-ignored :
      (m : Message rt t) (us : List (UnknownField Byte))
      → AllForeign rt (field_numbers t) us
      → Passes laws (read_field rt ReadUnknown.ignore t) (written rt us) m m
  unfolding read_unknown
  Passes-ignored m [] foreign = Passes-nil laws (read_field rt ReadUnknown.ignore t) m
  Passes-ignored m (u ∷ us) foreign =
      let fields = read_field rt ReadUnknown.ignore t in
      Passes-append laws fields (put_tag u.field_no u.wire_type ++ u.content) (written rt us) m m m
        (Passes-field laws fields u.field_no foreign.0 u.wire_type u.content m m λ p rest.
          foreign_case laws ReadUnknown.ignore t u.field_no u.wire_type m
            (reader p (u.content ++ rest)) foreign.1
          ∙ rw (call-put (skip u.wire_type) u.content u.content p rest (foreign.2 rest))
              (ap (λ x. ok (x, reader (p + length u.content) rest)) (attach_self rt t m)))
        (Passes-ignored m us foreign.3)

  -- Under `readUnknownField: false`, any fields whose numbers the type does not list, each with a
  -- content that `skip` takes whole, are passed over before and after the fields of a message that the
  -- format carries: that message is read, and the reader stands right behind all of them.
  pub read-foreign_ignore :
      (w : WriteUnknown Byte) (m : Message rt t) (before after : List (UnknownField Byte)) (p : ℕ)
      (rest : List Byte)
      → Fits laws ReadUnknown.ignore w t m
      → AllForeign rt (field_numbers t) before
      → AllForeign rt (field_numbers t) after
      → let bytes = written rt before ++ (internal_binary_write rt w t m ++ written rt after) in
        internal_binary_read rt ReadUnknown.ignore t
          (length bytes)
          (create rt t)
          (reader p (bytes ++ rest))
        ≡ ok (m, reader (p + length bytes) rest)
  read-foreign_ignore w m before after p rest fits old new =
      let fields = read_field rt ReadUnknown.ignore t in
      read_of_Passes laws ReadUnknown.ignore t
        (written rt before ++ (internal_binary_write rt w t m ++ written rt after)) (create rt t) m
        (Passes-append laws fields _ _ (create rt t) (create rt t) m
          (Passes-ignored (create rt t) before old)
          (Passes-append laws fields _ _ (create rt t) m m
            (write-Passes laws ReadUnknown.ignore w t m fits) (Passes-ignored m after new)))
        p rest
