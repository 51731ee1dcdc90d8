-- ===== src/Proto/Services.antt =====
-- The services of console/src/generated/kprobe.ts and the clients of
-- console/src/generated/kprobe.client.ts. `stackIntercept`, which runs a call on a transport, is not
-- in the repository: a method of a client is modelled by the arguments that it passes on.
use kprobe.Base.{String, Bool, true, false, Option, some, List, [], ◌∷◌, get_elem?, All, ◌≡◌, refl}
use kprobe.Proto.Codec.{
  MessageType, query_causal_chain_request, query_causal_chain_response, query_events_request,
  query_events_response, query_time_range_request, query_time_range_response, stream_events_request,
  stream_events_response, start_replay_request, start_replay_response, replay_control_request,
  replay_control_response, replay_status_request, replay_status_response, watch_replay_request,
  watch_replay_response,
}

pub record Method : Type 0 where
  pub name : String
  pub server_streaming : Bool
  pub input : MessageType
  pub output : MessageType

abbrev unary_method : String → MessageType → MessageType → Method
unary_method n i o = record { name = n; server_streaming = false; input = i; output = o }

abbrev streaming_method : String → MessageType → MessageType → Method
streaming_method n i o = record { name = n; server_streaming = true; input = i; output = o }

abbrev pub kprobe_service : List Method
kprobe_service =
    unary_method "QueryCausalChain" query_causal_chain_request query_causal_chain_response
    ∷ unary_method "QueryEvents" query_events_request query_events_response
    ∷ unary_method "QueryTimeRange" query_time_range_request query_time_range_response
    ∷ streaming_method "StreamEvents" stream_events_request stream_events_response
    ∷ []

abbrev pub replay_service : List Method
replay_service =
    unary_method "StartReplay" start_replay_request start_replay_response
    ∷ unary_method "Control" replay_control_request replay_control_response
    ∷ unary_method "Status" replay_status_request replay_status_response
    ∷ streaming_method "WatchReplay" watch_replay_request watch_replay_response
    ∷ []

pub data RpcKind : Type 0 where
  unary : RpcKind
  server_streaming : RpcKind

-- What a method of a client hands to `stackIntercept`: the kind, `this.methods[i]`, and, as its type
-- arguments, the messages that the call takes and gives.
pub record Invocation : Type 0 where
  pub kind : RpcKind
  pub method : Option Method
  pub input : MessageType
  pub output : MessageType

-- The methods of `KprobeServiceClient`.
query_causal_chain : Invocation
query_causal_chain = record {
  kind = unary;
  method = get_elem? kprobe_service 0;
  input = query_causal_chain_request;
  output = query_causal_chain_response;
}

query_events : Invocation
query_events = record {
  kind = unary;
  method = get_elem? kprobe_service 1;
  input = query_events_request;
  output = query_events_response;
}

query_time_range : Invocation
query_time_range = record {
  kind = unary;
  method = get_elem? kprobe_service 2;
  input = query_time_range_request;
  output = query_time_range_response;
}

stream_events : Invocation
stream_events = record {
  kind = server_streaming;
  method = get_elem? kprobe_service 3;
  input = stream_events_request;
  output = stream_events_response;
}

-- The methods of `ReplayServiceClient`.
start_replay : Invocation
start_replay = record {
  kind = unary;
  method = get_elem? replay_service 0;
  input = start_replay_request;
  output = start_replay_response;
}

control : Invocation
control = record {
  kind = unary;
  method = get_elem? replay_service 1;
  input = replay_control_request;
  output = replay_control_response;
}

status : Invocation
status = record {
  kind = unary;
  method = get_elem? replay_service 2;
  input = replay_status_request;
  output = replay_status_response;
}

watch_replay : Invocation
watch_replay = record {
  kind = server_streaming;
  method = get_elem? replay_service 3;
  input = watch_replay_request;
  output = watch_replay_response;
}

abbrev is_streaming : RpcKind → Bool
is_streaming unary = false
is_streaming server_streaming = true

-- The invocation names a method of the service with its own messages and its own kind.
abbrev Agrees : Invocation → Type 0
Agrees v =
    (m : Method) × (v.method ≡ some m)
    × (m.input ≡ v.input)
    × (m.output ≡ v.output)
    × (m.server_streaming ≡ is_streaming v.kind)

-- Each method of the two clients invokes the method of its service that takes and gives the same
-- messages, as a stream exactly where the service streams.
invocations-Agrees : All Agrees (
    query_causal_chain ∷ query_events ∷ query_time_range ∷ stream_events ∷ start_replay ∷ control
    ∷ status ∷ watch_replay ∷ [])
unfolding query_causal_chain query_events query_time_range stream_events start_replay control status
    watch_replay
invocations-Agrees = (
  (_, refl, refl, refl, refl),
  (
    (_, refl, refl, refl, refl),
    (
      (_, refl, refl, refl, refl),
      (
        (_, refl, refl, refl, refl),
        (
          (_, refl, refl, refl, refl),
          (
            (_, refl, refl, refl, refl),
            ((_, refl, refl, refl, refl), ((_, refl, refl, refl, refl), tt)),
          ),
        ),
      ),
    ),
  ),
)
