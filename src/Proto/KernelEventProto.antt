-- ===== src/Proto/KernelEventProto.antt =====
-- console/src/generated/kprobe.ts: the message `KernelEventProto`, its reading and its writing.
use kprobe.Proto.Shared.{
  ℕ, ◌<◌, String, false, List, [], ◌∷◌, length, contains, ◌==◌, nat_key, string_key, ◌≡◌, refl,
  arith, Runtime, Laws, WireType, UnknownField, ReadUnknown, WriteUnknown, Carried, Result, Reader,
  Fields, assign, default_case, switch, in_order, switch-foreign, switch-Settles, put_scalar,
  write_unknown, read_to_end, Passes, Passes-append, Passes-read_to_end, Passes-unknown, RoundTrips,
  Passes-string, Passes-uint32, Passes-uint64, Settles, AllSettle, assign-Settles, unknown-Settles,
  read_to_end-Settles,
}

-- `unknown` is what the handler of unknown fields attached to the message.
pub record KernelEventProto (Byte : Type 0) : Type 0 where
  pub event_id : String
  pub timestamp_ns : ℕ
  pub pid : ℕ
  pub event_type : String
  pub transaction_id : String
  pub service_name : String
  pub trace_id : String
  pub duration_ns : ℕ
  pub tid : ℕ
  pub cpu : ℕ
  pub span_id : String
  pub unknown : List (UnknownField Byte)

-- `this.typeName`, and the numbers of the fields that the constructor lists.
abbrev pub type_name : String
type_name = "kprobe.KernelEventProto"

abbrev pub field_numbers : List ℕ
field_numbers = 1 ∷ 2 ∷ 3 ∷ 4 ∷ 5 ∷ 6 ∷ 7 ∷ 8 ∷ 9 ∷ 10 ∷ 11 ∷ []

module _ (rt : Runtime) where
  open rt use {Byte, get_string, get_uint64, get_uint32, put_string, put_uint64, put_uint32}

  unfoldable pub create : KernelEventProto Byte
  create = record {
    event_id = "";
    timestamp_ns = 0;
    pid = 0;
    event_type = "";
    transaction_id = "";
    service_name = "";
    trace_id = "";
    duration_ns = 0;
    tid = 0;
    cpu = 0;
    span_id = "";
    unknown = [];
  }

  -- The cases of the `switch` on the number of a field.
  abbrev cases :
      ReadUnknown Byte
      → KernelEventProto Byte
      → Reader Byte
      → List (ℕ × Result (KernelEventProto Byte × Reader Byte))
  cases options m r =
      (1, assign get_string (λ a. record m { event_id = a }) r)
      ∷ (2, assign get_uint64 (λ a. record m { timestamp_ns = a }) r)
      ∷ (3, assign get_uint32 (λ a. record m { pid = a }) r)
      ∷ (4, assign get_string (λ a. record m { event_type = a }) r)
      ∷ (5, assign get_string (λ a. record m { transaction_id = a }) r)
      ∷ (6, assign get_string (λ a. record m { service_name = a }) r)
      ∷ (7, assign get_string (λ a. record m { trace_id = a }) r)
      ∷ (8, assign get_uint64 (λ a. record m { duration_ns = a }) r)
      ∷ (9, assign get_uint32 (λ a. record m { tid = a }) r)
      ∷ (10, assign get_uint32 (λ a. record m { cpu = a }) r)
      ∷ (11, assign get_string (λ a. record m { span_id = a }) r)
      ∷ []

  unfoldable pub read_field : ReadUnknown Byte → Fields Byte (KernelEventProto Byte)
  read_field options field_no wt m r =
      switch field_no (cases options m r) (
        default_case rt options type_name (λ us. record m { unknown = us }) field_no wt m.unknown r)

  unfoldable pub internal_binary_read :
      ReadUnknown Byte
      → ℕ
      → KernelEventProto Byte
      → Reader Byte
      → Result (KernelEventProto Byte × Reader Byte)
  unfolding read_field read_to_end
  internal_binary_read options = read_to_end rt (read_field options)

  -- The bytes that are appended to the writer.
  unfoldable pub internal_binary_write : WriteUnknown Byte → KernelEventProto Byte → List Byte
  internal_binary_write options m =
      in_order
        (put_scalar rt (m.event_id == "") 1 WireType.length_delimited (put_string m.event_id)
          ∷ put_scalar rt (m.timestamp_ns == 0) 2 WireType.varint (put_uint64 m.timestamp_ns)
          ∷ put_scalar rt (m.pid == 0) 3 WireType.varint (put_uint32 m.pid)
          ∷ put_scalar rt (m.event_type == "") 4 WireType.length_delimited (put_string m.event_type)
          ∷ put_scalar rt (m.transaction_id == "") 5 WireType.length_delimited
              (put_string m.transaction_id)
          ∷ put_scalar rt (m.service_name == "") 6 WireType.length_delimited
              (put_string m.service_name)
          ∷ put_scalar rt (m.trace_id == "") 7 WireType.length_delimited (put_string m.trace_id)
          ∷ put_scalar rt (m.duration_ns == 0) 8 WireType.varint (put_uint64 m.duration_ns)
          ∷ put_scalar rt (m.tid == 0) 9 WireType.varint (put_uint32 m.tid)
          ∷ put_scalar rt (m.cpu == 0) 10 WireType.varint (put_uint32 m.cpu)
          ∷ put_scalar rt (m.span_id == "") 11 WireType.length_delimited (put_string m.span_id)
          ∷ [])
        (write_unknown rt options type_name m.unknown)

module _ {rt : Runtime} (laws : Laws rt) (options : ReadUnknown rt.Byte)
    (w : WriteUnknown rt.Byte) where
  open rt use {Byte, get_string, get_uint64, get_uint32}
  open laws use {IsText}

  -- What the format carries of a message.
  pub record Fits (m : KernelEventProto Byte) : Type 0 where
    pub event_id_fits : IsText m.event_id
    pub timestamp_ns_fits : m.timestamp_ns < 18_446_744_073_709_551_616
    pub pid_fits : m.pid < 4_294_967_296
    pub event_type_fits : IsText m.event_type
    pub transaction_id_fits : IsText m.transaction_id
    pub service_name_fits : IsText m.service_name
    pub trace_id_fits : IsText m.trace_id
    pub duration_ns_fits : m.duration_ns < 18_446_744_073_709_551_616
    pub tid_fits : m.tid < 4_294_967_296
    pub cpu_fits : m.cpu < 4_294_967_296
    pub span_id_fits : IsText m.span_id
    pub unknown_fits : Carried rt field_numbers options w m.unknown

  -- A number that the constructor does not list takes the default case.
  pub read_field-foreign :
      (n : ℕ) (wt : WireType) (m : KernelEventProto Byte) (r : Reader Byte)
      → contains field_numbers n ≡ false
      → read_field rt options n wt m r
        ≡ default_case rt options type_name (λ us. record m { unknown = us }) n wt m.unknown r
  unfolding read_field
  read_field-foreign n wt m r h =
      switch-foreign n (cases rt options m r)
        (default_case rt options type_name (λ us. record m { unknown = us }) n wt m.unknown r) h

  pub write-Passes :
      (m : KernelEventProto Byte)
      → Fits m
      → Passes laws (read_field rt options) (internal_binary_write rt w m) (create rt) m
  unfolding create read_field internal_binary_write
  write-Passes m fits =
      let fields = read_field rt options in
      let s0 : KernelEventProto Byte = create rt in
      let s1 : KernelEventProto Byte = record s0 { event_id = m.event_id } in
      let s2 : KernelEventProto Byte = record s1 { timestamp_ns = m.timestamp_ns } in
      let s3 : KernelEventProto Byte = record s2 { pid = m.pid } in
      let s4 : KernelEventProto Byte = record s3 { event_type = m.event_type } in
      let s5 : KernelEventProto Byte = record s4 { transaction_id = m.transaction_id } in
      let s6 : KernelEventProto Byte = record s5 { service_name = m.service_name } in
      let s7 : KernelEventProto Byte = record s6 { trace_id = m.trace_id } in
      let s8 : KernelEventProto Byte = record s7 { duration_ns = m.duration_ns } in
      let s9 : KernelEventProto Byte = record s8 { tid = m.tid } in
      let s10 : KernelEventProto Byte = record s9 { cpu = m.cpu } in
      let s11 : KernelEventProto Byte = record s10 { span_id = m.span_id } in
      let p11 =
        Passes-unknown laws fields type_name field_numbers options w
          (λ us. record s11 { unknown = us }) m.unknown
          (λ k wt ws r h. read_field-foreign k wt (record s11 { unknown = ws }) r h)
          fits.unknown_fits in
      let p10 =
        Passes-append laws fields _ _ s10 s11 m
          (Passes-string laws fields 11 (omega arith) s10 (λ a. record s10 { span_id = a })
            m.span_id (λ r. refl) refl fits.span_id_fits)
          p11 in
      let p9 =
        Passes-append laws fields _ _ s9 s10 m
          (Passes-uint32 laws fields 10 (omega arith) s9 (λ a. record s9 { cpu = a }) m.cpu
            (λ r. refl) refl fits.cpu_fits)
          p10 in
      let p8 =
        Passes-append laws fields _ _ s8 s9 m
          (Passes-uint32 laws fields 9 (omega arith) s8 (λ a. record s8 { tid = a }) m.tid
            (λ r. refl) refl fits.tid_fits)
          p9 in
      let p7 =
        Passes-append laws fields _ _ s7 s8 m
          (Passes-uint64 laws fields 8 (omega arith) s7 (λ a. record s7 { duration_ns = a })
            m.duration_ns (λ r. refl) refl fits.duration_ns_fits)
          p8 in
      let p6 =
        Passes-append laws fields _ _ s6 s7 m
          (Passes-string laws fields 7 (omega arith) s6 (λ a. record s6 { trace_id = a }) m.trace_id
            (λ r. refl) refl fits.trace_id_fits)
          p7 in
      let p5 =
        Passes-append laws fields _ _ s5 s6 m
          (Passes-string laws fields 6 (omega arith) s5 (λ a. record s5 { service_name = a })
            m.service_name (λ r. refl) refl fits.service_name_fits)
          p6 in
      let p4 =
        Passes-append laws fields _ _ s4 s5 m
          (Passes-string laws fields 5 (omega arith) s4 (λ a. record s4 { transaction_id = a })
            m.transaction_id (λ r. refl) refl fits.transaction_id_fits)
          p5 in
      let p3 =
        Passes-append laws fields _ _ s3 s4 m
          (Passes-string laws fields 4 (omega arith) s3 (λ a. record s3 { event_type = a })
            m.event_type (λ r. refl) refl fits.event_type_fits)
          p4 in
      let p2 =
        Passes-append laws fields _ _ s2 s3 m
          (Passes-uint32 laws fields 3 (omega arith) s2 (λ a. record s2 { pid = a }) m.pid
            (λ r. refl) refl fits.pid_fits)
          p3 in
      let p1 =
        Passes-append laws fields _ _ s1 s2 m
          (Passes-uint64 laws fields 2 (omega arith) s1 (λ a. record s1 { timestamp_ns = a })
            m.timestamp_ns (λ r. refl) refl fits.timestamp_ns_fits)
          p2 in
      let p0 =
        Passes-append laws fields _ _ s0 s1 m
          (Passes-string laws fields 1 (omega arith) s0 (λ a. record s0 { event_id = a }) m.event_id
            (λ r. refl) refl fits.event_id_fits)
          p1 in
      p0

  pub read-write :
      (m : KernelEventProto Byte)
      → Fits m
      → RoundTrips (internal_binary_read rt options) (internal_binary_write rt w) (create rt) m
  unfolding internal_binary_read
  read-write m fits =
      Passes-read_to_end laws (read_field rt options) (internal_binary_write rt w m) (create rt) m
        (write-Passes m fits)

module _ {rt : Runtime} (laws : Laws rt) (options : ReadUnknown rt.Byte) where
  pub read_field-Settles : AllSettle (read_field rt options)
  unfolding read_field
  read_field-Settles n wt m r =
      switch-Settles (length r.left) n (cases rt options m r)
        (default_case rt options type_name (λ us. record m { unknown = us }) n wt m.unknown r)
        (
          assign-Settles rt.get_string _ r laws.string-Consumes,
          (
            assign-Settles rt.get_uint64 _ r laws.uint64-Consumes,
            (
              assign-Settles rt.get_uint32 _ r laws.uint32-Consumes,
              (
                assign-Settles rt.get_string _ r laws.string-Consumes,
                (
                  assign-Settles rt.get_string _ r laws.string-Consumes,
                  (
                    assign-Settles rt.get_string _ r laws.string-Consumes,
                    (
                      assign-Settles rt.get_string _ r laws.string-Consumes,
                      (
                        assign-Settles rt.get_uint64 _ r laws.uint64-Consumes,
                        (
                          assign-Settles rt.get_uint32 _ r laws.uint32-Consumes,
                          (
                            assign-Settles rt.get_uint32 _ r laws.uint32-Consumes,
                            (assign-Settles rt.get_string _ r laws.string-Consumes, tt),
                          ),
                        ),
                      ),
                    ),
                  ),
                ),
              ),
            ),
          ),
        )
        (unknown-Settles laws options type_name n wt m.unknown (λ us. record m { unknown = us }) r)

  pub internal_binary_read-Settles :
      (size : ℕ) (m : KernelEventProto rt.Byte) (r : Reader rt.Byte)
      → Settles (length r.left) (internal_binary_read rt options size m r)
  unfolding internal_binary_read
  internal_binary_read-Settles = read_to_end-Settles laws (read_field rt options) read_field-Settles
