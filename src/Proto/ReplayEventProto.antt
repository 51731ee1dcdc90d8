-- ===== src/Proto/ReplayEventProto.antt =====
-- console/src/generated/kprobe.ts: the message `ReplayEventProto`, its reading and its writing.
use kprobe.Proto.Shared.{
  ℕ, ◌<◌, String, false, List, [], ◌∷◌, length, contains, ◌==◌, nat_key, string_key, ◌≡◌, refl,
  arith, Runtime, Laws, ℤ, is_zero_int, WireType, UnknownField, ReadUnknown, WriteUnknown, Carried,
  Result, Reader, Fields, assign, default_case, switch, in_order, switch-foreign, switch-Settles,
  put_scalar, write_unknown, read_to_end, Passes, Passes-append, Passes-read_to_end, Passes-unknown,
  RoundTrips, Passes-string, Passes-uint32, Passes-uint64, Passes-int32, Passes-int64, Settles,
  AllSettle, assign-Settles, unknown-Settles, read_to_end-Settles,
}

-- `unknown` is what the handler of unknown fields attached to the message.
pub record ReplayEventProto (Byte : Type 0) : Type 0 where
  pub event_id : String
  pub timestamp_ns : ℕ
  pub pid : ℕ
  pub event_type : String
  pub transaction_id : String
  pub service_name : String
  pub duration_ns : ℕ
  pub return_value : ℤ
  pub index : ℤ
  pub unknown : List (UnknownField Byte)

-- `this.typeName`, and the numbers of the fields that the constructor lists.
abbrev pub type_name : String
type_name = "kprobe.ReplayEventProto"

abbrev pub field_numbers : List ℕ
field_numbers = 1 ∷ 2 ∷ 3 ∷ 4 ∷ 5 ∷ 6 ∷ 7 ∷ 8 ∷ 9 ∷ []

module _ (rt : Runtime) where
  open rt use {
    Byte, get_string, get_uint64, get_uint32, get_int64, get_int32, put_string, put_uint64,
    put_uint32, put_int64, put_int32,
  }

  pub create : ReplayEventProto Byte
  create = record {
    event_id = "";
    timestamp_ns = 0;
    pid = 0;
    event_type = "";
    transaction_id = "";
    service_name = "";
    duration_ns = 0;
    return_value = ℤ.pos 0;
    index = ℤ.pos 0;
    unknown = [];
  }

  -- The cases of the `switch` on the number of a field.
  abbrev cases :
      ReadUnknown Byte
      → ReplayEventProto Byte
      → Reader Byte
      → List (ℕ × Result (ReplayEventProto Byte × Reader Byte))
  cases options m r =
      (1, assign get_string (λ a. record m { event_id = a }) r)
      ∷ (2, assign get_uint64 (λ a. record m { timestamp_ns = a }) r)
      ∷ (3, assign get_uint32 (λ a. record m { pid = a }) r)
      ∷ (4, assign get_string (λ a. record m { event_type = a }) r)
      ∷ (5, assign get_string (λ a. record m { transaction_id = a }) r)
      ∷ (6, assign get_string (λ a. record m { service_name = a }) r)
      ∷ (7, assign get_uint64 (λ a. record m { duration_ns = a }) r)
      ∷ (8, assign get_int64 (λ a. record m { return_value = a }) r)
      ∷ (9, assign get_int32 (λ a. record m { index = a }) r)
      ∷ []

  pub read_field : ReadUnknown Byte → Fields Byte (ReplayEventProto Byte)
  read_field options field_no wt m r =
      switch field_no (cases options m r) (
        default_case rt options type_name (λ us. record m { unknown = us }) field_no wt m.unknown r)

  unfoldable pub internal_binary_read :
      ReadUnknown Byte
      → ℕ
      → ReplayEventProto Byte
      → Reader Byte
      → Result (ReplayEventProto Byte × Reader Byte)
  unfolding read_field read_to_end
  internal_binary_read options = read_to_end rt (read_field options)

  -- The bytes that are appended to the writer.
  pub internal_binary_write : WriteUnknown Byte → ReplayEventProto Byte → List Byte
  internal_binary_write options m =
      in_order
        (put_scalar rt (m.event_id == "") 1 WireType.length_delimited (put_string m.event_id)
          ∷ put_scalar rt (m.timestamp_ns == 0) 2 WireType.varint (put_uint64 m.timestamp_ns)
          ∷ put_scalar rt (m.pid == 0) 3 WireType.varint (put_uint32 m.pid)
          ∷ put_scalar rt (m.event_type == "") 4 WireType.length_delimited (put_string m.event_type)
          ∷ put_scalar rt (m.transaction_id == "") 5 WireType.length_delimited
              (put_string m.transaction_id)
          ∷ put_scalar rt (m.service_name == "") 6 WireType.length_delimited
              (put_string m.service_name)
          ∷ put_scalar rt (m.duration_ns == 0) 7 WireType.varint (put_uint64 m.duration_ns)
          ∷ put_scalar rt (is_zero_int m.return_value) 8 WireType.varint (put_int64 m.return_value)
          ∷ put_scalar rt (is_zero_int m.index) 9 WireType.varint (put_int32 m.index)
          ∷ [])
        (write_unknown rt options type_name m.unknown)

module _ {rt : Runtime} (laws : Laws rt) (options : ReadUnknown rt.Byte)
    (w : WriteUnknown rt.Byte) where
  open rt use {Byte, get_string, get_uint64, get_uint32, get_int64, get_int32}
  open laws use {IsText, IsInt32, IsInt64}

  -- What the format carries of a message.
  pub record Fits (m : ReplayEventProto Byte) : Type 0 where
    pub event_id_fits : IsText m.event_id
    pub timestamp_ns_fits : m.timestamp_ns < 18_446_744_073_709_551_616
    pub pid_fits : m.pid < 4_294_967_296
    pub event_type_fits : IsText m.event_type
    pub transaction_id_fits : IsText m.transaction_id
    pub service_name_fits : IsText m.service_name
    pub duration_ns_fits : m.duration_ns < 18_446_744_073_709_551_616
    pub return_value_fits : IsInt64 m.return_value
    pub index_fits : IsInt32 m.index
    pub unknown_fits : Carried rt field_numbers options w m.unknown

  -- A number that the constructor does not list takes the default case.
  pub read_field-foreign :
      (n : ℕ) (wt : WireType) (m : ReplayEventProto Byte) (r : Reader Byte)
      → contains field_numbers n ≡ false
      → read_field rt options n wt m r
        ≡ default_case rt options type_name (λ us. record m { unknown = us }) n wt m.unknown r
  unfolding read_field
  read_field-foreign n wt m r h =
      switch-foreign n (cases rt options m r)
        (default_case rt options type_name (λ us. record m { unknown = us }) n wt m.unknown r) h

  pub write-Passes :
      (m : ReplayEventProto Byte)
      → Fits m
      → Passes laws (read_field rt options) (internal_binary_write rt w m) (create rt) m
  unfolding create read_field internal_binary_write
  write-Passes m fits =
      let fields = read_field rt options in
      let s0 : ReplayEventProto Byte = create rt in
      let s1 : ReplayEventProto Byte = record s0 { event_id = m.event_id } in
      let s2 : ReplayEventProto Byte = record s1 { timestamp_ns = m.timestamp_ns } in
      let s3 : ReplayEventProto Byte = record s2 { pid = m.pid } in
      let s4 : ReplayEventProto Byte = record s3 { event_type = m.event_type } in
      let s5 : ReplayEventProto Byte = record s4 { transaction_id = m.transaction_id } in
      let s6 : ReplayEventProto Byte = record s5 { service_name = m.service_name } in
      let s7 : ReplayEventProto Byte = record s6 { duration_ns = m.duration_ns } in
      let s8 : ReplayEventProto Byte = record s7 { return_value = m.return_value } in
      let s9 : ReplayEventProto Byte = record s8 { index = m.index } in
      let p9 =
        Passes-unknown laws fields type_name field_numbers options w
          (λ us. record s9 { unknown = us }) m.unknown
          (λ k wt ws r h. read_field-foreign k wt (record s9 { unknown = ws }) r h)
          fits.unknown_fits in
      let p8 =
        Passes-append laws fields _ _ s8 s9 m
          (Passes-int32 laws fields 9 (omega arith) s8 (λ a. record s8 { index = a }) m.index
            (λ r. refl) refl fits.index_fits)
          p9 in
      let p7 =
        Passes-append laws fields _ _ s7 s8 m
          (Passes-int64 laws fields 8 (omega arith) s7 (λ a. record s7 { return_value = a })
            m.return_value (λ r. refl) refl fits.return_value_fits)
          p8 in
      let p6 =
        Passes-append laws fields _ _ s6 s7 m
          (Passes-uint64 laws fields 7 (omega arith) s6 (λ a. record s6 { duration_ns = a })
            m.duration_ns (λ r. refl) refl fits.duration_ns_fits)
          p7 in
      let p5 =
        Passes-append laws fields _ _ s5 s6 m
          (Passes-string laws fields 6 (omega arith) s5 (λ a. record s5 { service_name = a })
            m.service_name (λ r. refl) refl fits.service_name_fits)
          p6 in
      let p4 =
        Passes-append laws fields _ _ s4 s5 m
          (Passes-string laws fields 5 (omega arith) s4 (λ a. record s4 { transaction_id = a })
            m.transaction_id (λ r. refl) refl fits.transaction_id_fits)
          p5 in
      let p3 =
        Passes-append laws fields _ _ s3 s4 m
          (Passes-string laws fields 4 (omega arith) s3 (λ a. record s3 { event_type = a })
            m.event_type (λ r. refl) refl fits.event_type_fits)
          p4 in
      let p2 =
        Passes-append laws fields _ _ s2 s3 m
          (Passes-uint32 laws fields 3 (omega arith) s2 (λ a. record s2 { pid = a }) m.pid
            (λ r. refl) refl fits.pid_fits)
          p3 in
      let p1 =
        Passes-append laws fields _ _ s1 s2 m
          (Passes-uint64 laws fields 2 (omega arith) s1 (λ a. record s1 { timestamp_ns = a })
            m.timestamp_ns (λ r. refl) refl fits.timestamp_ns_fits)
          p2 in
      let p0 =
        Passes-append laws fields _ _ s0 s1 m
          (Passes-string laws fields 1 (omega arith) s0 (λ a. record s0 { event_id = a }) m.event_id
            (λ r. refl) refl fits.event_id_fits)
          p1 in
      p0

  pub read-write :
      (m : ReplayEventProto Byte)
      → Fits m
      → RoundTrips (internal_binary_read rt options) (internal_binary_write rt w) (create rt) m
  unfolding internal_binary_read
  read-write m fits =
      Passes-read_to_end laws (read_field rt options) (internal_binary_write rt w m) (create rt) m
        (write-Passes m fits)

module _ {rt : Runtime} (laws : Laws rt) (options : ReadUnknown rt.Byte) where
  pub read_field-Settles : AllSettle (read_field rt options)
  unfolding read_field
  read_field-Settles n wt m r =
      switch-Settles (length r.left) n (cases rt options m r)
        (default_case rt options type_name (λ us. record m { unknown = us }) n wt m.unknown r)
        (
          assign-Settles rt.get_string _ r laws.string-Consumes,
          (
            assign-Settles rt.get_uint64 _ r laws.uint64-Consumes,
            (
              assign-Settles rt.get_uint32 _ r laws.uint32-Consumes,
              (
                assign-Settles rt.get_string _ r laws.string-Consumes,
                (
                  assign-Settles rt.get_string _ r laws.string-Consumes,
                  (
                    assign-Settles rt.get_string _ r laws.string-Consumes,
                    (
                      assign-Settles rt.get_uint64 _ r laws.uint64-Consumes,
                      (
                        assign-Settles rt.get_int64 _ r laws.int64-Consumes,
                        (assign-Settles rt.get_int32 _ r laws.int32-Consumes, tt),
                      ),
                    ),
                  ),
                ),
              ),
            ),
          ),
        )
        (unknown-Settles laws options type_name n wt m.unknown (λ us. record m { unknown = us }) r)

  pub internal_binary_read-Settles :
      (size : ℕ) (m : ReplayEventProto rt.Byte) (r : Reader rt.Byte)
      → Settles (length r.left) (internal_binary_read rt options size m r)
  unfolding internal_binary_read
  internal_binary_read-Settles = read_to_end-Settles laws (read_field rt options) read_field-Settles
