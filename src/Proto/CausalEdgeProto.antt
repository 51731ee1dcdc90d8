-- ===== src/Proto/CausalEdgeProto.antt =====
-- console/src/generated/kprobe.ts: the message `CausalEdgeProto`, its reading and its writing.
use kprobe.Proto.Shared.{
  ℕ, ◌<◌, String, false, List, [], ◌∷◌, length, contains, ◌==◌, nat_key, string_key, ◌≡◌, refl,
  arith, Runtime, Laws, WireType, UnknownField, ReadUnknown, WriteUnknown, Carried, Result, Reader,
  Fields, assign, default_case, switch, in_order, switch-foreign, switch-Settles, put_scalar,
  write_unknown, read_to_end, Passes, Passes-append, Passes-read_to_end, Passes-unknown, RoundTrips,
  Passes-string, Passes-uint64, Settles, AllSettle, assign-Settles, unknown-Settles,
  read_to_end-Settles,
}

-- `unknown` is what the handler of unknown fields attached to the message.
pub record CausalEdgeProto (Byte : Type 0) : Type 0 where
  pub from_event_id : String
  pub to_event_id : String
  pub cause_type : String
  pub latency_ns : ℕ
  pub transaction_id : String
  pub service_name : String
  pub unknown : List (UnknownField Byte)

-- `this.typeName`, and the numbers of the fields that the constructor lists.
abbrev pub type_name : String
type_name = "kprobe.CausalEdgeProto"

abbrev pub field_numbers : List ℕ
field_numbers = 1 ∷ 2 ∷ 3 ∷ 4 ∷ 5 ∷ 6 ∷ []

module _ (rt : Runtime) where
  open rt use {Byte, get_string, get_uint64, put_string, put_uint64}

  pub create : CausalEdgeProto Byte
  create = record {
    from_event_id = "";
    to_event_id = "";
    cause_type = "";
    latency_ns = 0;
    transaction_id = "";
    service_name = "";
    unknown = [];
  }

  -- The cases of the `switch` on the number of a field.
  abbrev cases :
      ReadUnknown Byte
      → CausalEdgeProto Byte
      → Reader Byte
      → List (ℕ × Result (CausalEdgeProto Byte × Reader Byte))
  cases options m r =
      (1, assign get_string (λ a. record m { from_event_id = a }) r)
      ∷ (2, assign get_string (λ a. record m { to_event_id = a }) r)
      ∷ (3, assign get_string (λ a. record m { cause_type = a }) r)
      ∷ (4, assign get_uint64 (λ a. record m { latency_ns = a }) r)
      ∷ (5, assign get_string (λ a. record m { transaction_id = a }) r)
      ∷ (6, assign get_string (λ a. record m { service_name = a }) r)
      ∷ []

  pub read_field : ReadUnknown Byte → Fields Byte (CausalEdgeProto Byte)
  read_field options field_no wt m r =
      switch field_no (cases options m r) (
        default_case rt options type_name (λ us. record m { unknown = us }) field_no wt m.unknown r)

  unfoldable pub internal_binary_read :
      ReadUnknown Byte
      → ℕ
      → CausalEdgeProto Byte
      → Reader Byte
      → Result (CausalEdgeProto Byte × Reader Byte)
  unfolding read_field read_to_end
  internal_binary_read options = read_to_end rt (read_field options)

  -- The bytes that are appended to the writer.
  unfoldable pub internal_binary_write : WriteUnknown Byte → CausalEdgeProto Byte → List Byte
  internal_binary_write options m =
      in_order
        (put_scalar rt (m.from_event_id == "") 1 WireType.length_delimited
            (put_string m.from_event_id)
          ∷ put_scalar rt (m.to_event_id == "") 2 WireType.length_delimited
              (put_string m.to_event_id)
          ∷ put_scalar rt (m.cause_type == "") 3 WireType.length_delimited (put_string m.cause_type)
          ∷ put_scalar rt (m.latency_ns == 0) 4 WireType.varint (put_uint64 m.latency_ns)
          ∷ put_scalar rt (m.transaction_id == "") 5 WireType.length_delimited
              (put_string m.transaction_id)
          ∷ put_scalar rt (m.service_name == "") 6 WireType.length_delimited
              (put_string m.service_name)
          ∷ [])
        (write_unknown rt options type_name m.unknown)

module _ {rt : Runtime} (laws : Laws rt) (options : ReadUnknown rt.Byte)
    (w : WriteUnknown rt.Byte) where
  open rt use {Byte, get_string, get_uint64}
  open laws use {IsText}

  -- What the format carries of a message.
  pub record Fits (m : CausalEdgeProto Byte) : Type 0 where
    pub from_event_id_fits : IsText m.from_event_id
    pub to_event_id_fits : IsText m.to_event_id
    pub cause_type_fits : IsText m.cause_type
    pub latency_ns_fits : m.latency_ns < 18_446_744_073_709_551_616
    pub transaction_id_fits : IsText m.transaction_id
    pub service_name_fits : IsText m.service_name
    pub unknown_fits : Carried rt field_numbers options w m.unknown

  -- A number that the constructor does not list takes the default case.
  pub read_field-foreign :
      (n : ℕ) (wt : WireType) (m : CausalEdgeProto Byte) (r : Reader Byte)
      → contains field_numbers n ≡ false
      → read_field rt options n wt m r
        ≡ default_case rt options type_name (λ us. record m { unknown = us }) n wt m.unknown r
  unfolding read_field
  read_field-foreign n wt m r h =
      switch-foreign n (cases rt options m r)
        (default_case rt options type_name (λ us. record m { unknown = us }) n wt m.unknown r) h

  pub write-Passes :
      (m : CausalEdgeProto Byte)
      → Fits m
      → Passes laws (read_field rt options) (internal_binary_write rt w m) (create rt) m
  unfolding create read_field internal_binary_write
  write-Passes m fits =
      let fields = read_field rt options in
      let s0 : CausalEdgeProto Byte = create rt in
      let s1 : CausalEdgeProto Byte = record s0 { from_event_id = m.from_event_id } in
      let s2 : CausalEdgeProto Byte = record s1 { to_event_id = m.to_event_id } in
      let s3 : CausalEdgeProto Byte = record s2 { cause_type = m.cause_type } in
      let s4 : CausalEdgeProto Byte = record s3 { latency_ns = m.latency_ns } in
      let s5 : CausalEdgeProto Byte = record s4 { transaction_id = m.transaction_id } in
      let s6 : CausalEdgeProto Byte = record s5 { service_name = m.service_name } in
      let p6 =
        Passes-unknown laws fields type_name field_numbers options w
          (λ us. record s6 { unknown = us }) m.unknown
          (λ k wt ws r h. read_field-foreign k wt (record s6 { unknown = ws }) r h)
          fits.unknown_fits in
      let p5 =
        Passes-append laws fields _ _ s5 s6 m
          (Passes-string laws fields 6 (omega arith) s5 (λ a. record s5 { service_name = a })
            m.service_name (λ r. refl) refl fits.service_name_fits)
          p6 in
      let p4 =
        Passes-append laws fields _ _ s4 s5 m
          (Passes-string laws fields 5 (omega arith) s4 (λ a. record s4 { transaction_id = a })
            m.transaction_id (λ r. refl) refl fits.transaction_id_fits)
          p5 in
      let p3 =
        Passes-append laws fields _ _ s3 s4 m
          (Passes-uint64 laws fields 4 (omega arith) s3 (λ a. record s3 { latency_ns = a })
            m.latency_ns (λ r. refl) refl fits.latency_ns_fits)
          p4 in
      let p2 =
        Passes-append laws fields _ _ s2 s3 m
          (Passes-string laws fields 3 (omega arith) s2 (λ a. record s2 { cause_type = a })
            m.cause_type (λ r. refl) refl fits.cause_type_fits)
          p3 in
      let p1 =
        Passes-append laws fields _ _ s1 s2 m
          (Passes-string laws fields 2 (omega arith) s1 (λ a. record s1 { to_event_id = a })
            m.to_event_id (λ r. refl) refl fits.to_event_id_fits)
          p2 in
      let p0 =
        Passes-append laws fields _ _ s0 s1 m
          (Passes-string laws fields 1 (omega arith) s0 (λ a. record s0 { from_event_id = a })
            m.from_event_id (λ r. refl) refl fits.from_event_id_fits)
          p1 in
      p0

  pub read-write :
      (m : CausalEdgeProto Byte)
      → Fits m
      → RoundTrips (internal_binary_read rt options) (internal_binary_write rt w) (create rt) m
  unfolding internal_binary_read
  read-write m fits =
      Passes-read_to_end laws (read_field rt options) (internal_binary_write rt w m) (create rt) m
        (write-Passes m fits)

module _ {rt : Runtime} (laws : Laws rt) (options : ReadUnknown rt.Byte) where
  pub read_field-Settles : AllSettle (read_field rt options)
  unfolding read_field
  read_field-Settles n wt m r =
      switch-Settles (length r.left) n (cases rt options m r)
        (default_case rt options type_name (λ us. record m { unknown = us }) n wt m.unknown r)
        (
          assign-Settles rt.get_string _ r laws.string-Consumes,
          (
            assign-Settles rt.get_string _ r laws.string-Consumes,
            (
              assign-Settles rt.get_string _ r laws.string-Consumes,
              (
                assign-Settles rt.get_uint64 _ r laws.uint64-Consumes,
                (
                  assign-Settles rt.get_string _ r laws.string-Consumes,
                  (assign-Settles rt.get_string _ r laws.string-Consumes, tt),
                ),
              ),
            ),
          ),
        )
        (unknown-Settles laws options type_name n wt m.unknown (λ us. record m { unknown = us }) r)

  pub internal_binary_read-Settles :
      (size : ℕ) (m : CausalEdgeProto rt.Byte) (r : Reader rt.Byte)
      → Settles (length r.left) (internal_binary_read rt options size m r)
  unfolding internal_binary_read
  internal_binary_read-Settles = read_to_end-Settles laws (read_field rt options) read_field-Settles
