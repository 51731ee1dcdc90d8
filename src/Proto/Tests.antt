-- ===== src/Proto/Tests.antt =====
-- The codec at concrete messages, on the runtime of Proto/Tokens.
use kprobe.Base.{◌+◌, ◌<◌, [], ◌∷◌, ◌++◌, length, nat_key, ◌≡◌, refl, arith}
use kprobe.Proto.Runtime.{WireType, UnknownField, ReadUnknown, WriteUnknown, written, Carried}
use kprobe.Proto.KernelEventProto
use kprobe.Proto.KernelEventProto.{KernelEventProto}
use kprobe.Proto.CausalEdgeProto
use kprobe.Proto.CausalEdgeProto.{CausalEdgeProto}
use kprobe.Proto.QueryCausalChainResponse
use kprobe.Proto.QueryCausalChainResponse.{QueryCausalChainResponse}
use kprobe.Proto.Reader.{
  read_to_end, read_loop, write_unknown, Reader, ok, error, unknown_field, malformed,
}
use kprobe.Proto.Segments.{reader}
use kprobe.Proto.Settles.{Settles}
use kprobe.Proto.Codec.{
  kernel_event_proto, query_causal_chain_response, internal_binary_read, internal_binary_write,
  create,
}
use kprobe.Proto.Laws.{internal_binary_read-internal_binary_write, codec-Settles}
use kprobe.Proto.Foreign.{read-foreign_reject, read-foreign_ignore}
use kprobe.Proto.Tokens.{Token, tag, text, numeral, tokens, token_laws}

abbrev exec_event : KernelEventProto Token
exec_event = record {
  event_id = "e1";
  timestamp_ns = 1_700_000_000_000_000_000;
  pid = 4_242;
  event_type = "sys_enter_execve";
  transaction_id = "tx-1";
  service_name = "payments";
  trace_id = "";
  duration_ns = 0;
  tid = 4_243;
  cpu = 3;
  span_id = "s";
  unknown = [];
}

abbrev edge : CausalEdgeProto Token
edge = record {
  from_event_id = "e1";
  to_event_id = "e2";
  cause_type = "fork";
  latency_ns = 1_500;
  transaction_id = "tx-1";
  service_name = "";
  unknown = [];
}

abbrev newer_field : UnknownField Token
newer_field = record { field_no = 12; wire_type = WireType.varint; content = numeral 7 ∷ [] }

abbrev chain : QueryCausalChainResponse Token
chain = record {
  nodes = exec_event ∷ KernelEventProto.create tokens ∷ [];
  edges = edge ∷ [];
  unknown = newer_field ∷ [];
}

event-Fits :
    (options : ReadUnknown Token) (w : WriteUnknown Token) (e : KernelEventProto Token)
    → e.timestamp_ns < 18_446_744_073_709_551_616
    → e.pid < 4_294_967_296
    → e.duration_ns < 18_446_744_073_709_551_616
    → e.tid < 4_294_967_296
    → e.cpu < 4_294_967_296
    → Carried tokens KernelEventProto.field_numbers options w e.unknown
    → KernelEventProto.Fits token_laws options w e
event-Fits options w e ts pid dur tid cpu c = record {
  event_id_fits = tt;
  timestamp_ns_fits = ts;
  pid_fits = pid;
  event_type_fits = tt;
  transaction_id_fits = tt;
  service_name_fits = tt;
  trace_id_fits = tt;
  duration_ns_fits = dur;
  tid_fits = tid;
  cpu_fits = cpu;
  span_id_fits = tt;
  unknown_fits = c;
}

exec_event-Fits :
    (options : ReadUnknown Token) (w : WriteUnknown Token)
    → Carried tokens KernelEventProto.field_numbers options w []
    → KernelEventProto.Fits token_laws options w exec_event
exec_event-Fits options w c =
    event-Fits options w exec_event (omega arith) (omega arith) (omega arith) (omega arith)
      (omega arith) c

chain-Fits : QueryCausalChainResponse.Fits token_laws ReadUnknown.keep WriteUnknown.include chain
unfolding KernelEventProto.create KernelEventProto.internal_binary_write
    CausalEdgeProto.internal_binary_write write_unknown
chain-Fits = record {
  nodes_fits = (
    (exec_event-Fits ReadUnknown.keep WriteUnknown.include tt, omega arith),
    (
      (
        event-Fits ReadUnknown.keep WriteUnknown.include (KernelEventProto.create tokens)
            (omega arith) (omega arith) (omega arith) (omega arith) (omega arith) tt,
        omega arith,
      ),
      tt,
    ),
  );
  edges_fits = (
    (
      record {
        from_event_id_fits = tt;
        to_event_id_fits = tt;
        cause_type_fits = tt;
        latency_ns_fits = omega arith;
        transaction_id_fits = tt;
        service_name_fits = tt;
        unknown_fits = tt;
      },
      omega arith,
    ),
    tt,
  );
  unknown_fits = ((omega arith, omega arith), refl, λ rest. refl, tt);
}

internal_binary_read-internal_binary_write_example :
    internal_binary_read tokens ReadUnknown.keep query_causal_chain_response
      (length (internal_binary_write tokens WriteUnknown.include query_causal_chain_response chain))
      (create tokens query_causal_chain_response)
      (reader 100 (
        internal_binary_write tokens WriteUnknown.include query_causal_chain_response chain
        ++ numeral 5 ∷ []))
    ≡ ok (
      chain,
      reader
          (100
            + length (
                internal_binary_write tokens WriteUnknown.include query_causal_chain_response
                  chain))
          (numeral 5 ∷ []),
    )
internal_binary_read-internal_binary_write_example =
    internal_binary_read-internal_binary_write token_laws ReadUnknown.keep WriteUnknown.include
      query_causal_chain_response chain chain-Fits 100 (numeral 5 ∷ [])

-- A message that claims more bytes than there are.
abbrev cut_short : Reader Token
cut_short = reader 0 (tag 3 WireType.varint ∷ numeral 17 ∷ tag 1 WireType.length_delimited ∷ [])

codec-Settles_example :
    Settles
      (length cut_short.left)
      (internal_binary_read tokens ReadUnknown.keep kernel_event_proto 9 exec_event cut_short)
codec-Settles_example =
    codec-Settles token_laws ReadUnknown.keep kernel_event_proto 9 exec_event cut_short

cut_short_malformed :
    internal_binary_read tokens ReadUnknown.keep kernel_event_proto 9 exec_event cut_short
    ≡ error malformed
unfolding KernelEventProto.internal_binary_read KernelEventProto.read_field read_to_end read_loop
cut_short_malformed = refl

read-foreign_reject_example :
    internal_binary_read tokens ReadUnknown.reject kernel_event_proto 2 exec_event
      (reader 0 (tag 12 WireType.varint ∷ numeral 7 ∷ []))
    ≡ error (unknown_field 12 WireType.varint "kprobe.KernelEventProto")
read-foreign_reject_example =
    read-foreign_reject token_laws kernel_event_proto 12 WireType.varint 2 exec_event 0
      (numeral 7 ∷ []) (omega arith, omega arith) refl (omega arith)

read-foreign_ignore_example :
    let bytes =
      written tokens (newer_field ∷ [])
      ++ (internal_binary_write tokens WriteUnknown.omit kernel_event_proto exec_event
          ++ written tokens (newer_field ∷ newer_field ∷ [])) in
    internal_binary_read tokens ReadUnknown.ignore kernel_event_proto
      (length bytes)
      (create tokens kernel_event_proto)
      (reader 0 (bytes ++ []))
    ≡ ok (exec_event, reader (0 + length bytes) [])
read-foreign_ignore_example =
    read-foreign_ignore token_laws kernel_event_proto WriteUnknown.omit exec_event
      (newer_field ∷ []) (newer_field ∷ newer_field ∷ []) 0 []
      (exec_event-Fits ReadUnknown.ignore WriteUnknown.omit refl)
      ((omega arith, omega arith), refl, λ rest. refl, tt)
      (
        (omega arith, omega arith),
        refl,
        λ rest. refl,
        ((omega arith, omega arith), refl, λ rest. refl, tt),
      )

-- The empty fields are left out, and the nested message stands behind its length.
edge-tokens :
    QueryCausalChainResponse.internal_binary_write tokens WriteUnknown.include
      (record { nodes = []; edges = edge ∷ []; unknown = newer_field ∷ [] })
    ≡ tag 2 WireType.length_delimited
      ∷ numeral 10
      ∷ tag 1 WireType.length_delimited
      ∷ text "e1"
      ∷ tag 2 WireType.length_delimited
      ∷ text "e2"
      ∷ tag 3 WireType.length_delimited
      ∷ text "fork"
      ∷ tag 4 WireType.varint
      ∷ numeral 1_500
      ∷ tag 5 WireType.length_delimited
      ∷ text "tx-1"
      ∷ tag 12 WireType.varint
      ∷ numeral 7
      ∷ []
unfolding QueryCausalChainResponse.internal_binary_write CausalEdgeProto.internal_binary_write
    write_unknown
edge-tokens = refl
