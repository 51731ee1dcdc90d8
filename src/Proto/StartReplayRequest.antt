-- ===== src/Proto/StartReplayRequest.antt =====
-- console/src/generated/kprobe.ts: the message `StartReplayRequest`, its reading and its writing.
use kprobe.Proto.Shared.{
  ℕ, ◌<◌, String, true, false, List, [], ◌∷◌, length, contains, ◌==◌, nat_key, string_key, ◌≡◌,
  refl, arith, Runtime, Laws, WireType, UnknownField, ReadUnknown, WriteUnknown, Carried, Result,
  Reader, Fields, assign, default_case, switch, in_order, switch-foreign, switch-Settles,
  put_scalar, write_unknown, read_to_end, Passes, Passes-append, Passes-unknown, Passes-string,
  Passes-uint64, Passes-double, AllSettle, assign-Settles, unknown-Settles,
}

-- `unknown` is what the handler of unknown fields attached to the message.
pub record StartReplayRequest (rt : Runtime) : Type 0 where
  pub transaction_id : String
  pub timeout_override_ns : ℕ
  pub latency_multiplier : rt.Double
  pub extra_latency_ns : ℕ
  pub inject_failure_at : String
  pub speed_factor : rt.Double
  pub unknown : List (UnknownField rt.Byte)

-- `this.typeName`, and the numbers of the fields that the constructor lists.
abbrev pub type_name : String
type_name = "kprobe.StartReplayRequest"

abbrev pub field_numbers : List ℕ
field_numbers = 1 ∷ 2 ∷ 3 ∷ 4 ∷ 5 ∷ 6 ∷ []

module _ (rt : Runtime) where
  open rt use {
    Byte, get_string, get_uint64, get_double, put_string, put_uint64, put_double, is_zero,
    zero_double,
  }

  pub create : StartReplayRequest rt
  create = record {
    transaction_id = "";
    timeout_override_ns = 0;
    latency_multiplier = zero_double;
    extra_latency_ns = 0;
    inject_failure_at = "";
    speed_factor = zero_double;
    unknown = [];
  }

  -- The cases of the `switch` on the number of a field.
  abbrev cases :
      ReadUnknown Byte
      → StartReplayRequest rt
      → Reader Byte
      → List (ℕ × Result (StartReplayRequest rt × Reader Byte))
  cases options m r =
      (1, assign get_string (λ a. record m { transaction_id = a }) r)
      ∷ (2, assign get_uint64 (λ a. record m { timeout_override_ns = a }) r)
      ∷ (3, assign get_double (λ a. record m { latency_multiplier = a }) r)
      ∷ (4, assign get_uint64 (λ a. record m { extra_latency_ns = a }) r)
      ∷ (5, assign get_string (λ a. record m { inject_failure_at = a }) r)
      ∷ (6, assign get_double (λ a. record m { speed_factor = a }) r)
      ∷ []

  pub read_field : ReadUnknown Byte → Fields Byte (StartReplayRequest rt)
  read_field options field_no wt m r =
      switch field_no (cases options m r) (
        default_case rt options type_name (λ us. record m { unknown = us }) field_no wt m.unknown r)

  unfoldable pub internal_binary_read :
      ReadUnknown Byte
      → ℕ
      → StartReplayRequest rt
      → Reader Byte
      → Result (StartReplayRequest rt × Reader Byte)
  unfolding read_field read_to_end
  internal_binary_read options = read_to_end rt (read_field options)

  -- The bytes that are appended to the writer.
  pub internal_binary_write : WriteUnknown Byte → StartReplayRequest rt → List Byte
  internal_binary_write options m =
      in_order
        (put_scalar rt (m.transaction_id == "") 1 WireType.length_delimited
            (put_string m.transaction_id)
          ∷ put_scalar rt (m.timeout_override_ns == 0) 2 WireType.varint
              (put_uint64 m.timeout_override_ns)
          ∷ put_scalar rt (is_zero m.latency_multiplier) 3 WireType.bit64
              (put_double m.latency_multiplier)
          ∷ put_scalar rt (m.extra_latency_ns == 0) 4 WireType.varint
              (put_uint64 m.extra_latency_ns)
          ∷ put_scalar rt (m.inject_failure_at == "") 5 WireType.length_delimited
              (put_string m.inject_failure_at)
          ∷ put_scalar rt (is_zero m.speed_factor) 6 WireType.bit64 (put_double m.speed_factor)
          ∷ [])
        (write_unknown rt options type_name m.unknown)

module _ {rt : Runtime} (laws : Laws rt) (options : ReadUnknown rt.Byte)
    (w : WriteUnknown rt.Byte) where
  open rt use {Byte, get_string, get_uint64, get_double, is_zero, zero_double}
  open laws use {IsText}

  -- What the format carries of a message.
  pub record Fits (m : StartReplayRequest rt) : Type 0 where
    pub transaction_id_fits : IsText m.transaction_id
    pub timeout_override_ns_fits : m.timeout_override_ns < 18_446_744_073_709_551_616
    pub latency_multiplier_fits :
        is_zero m.latency_multiplier ≡ true → m.latency_multiplier ≡ zero_double
    pub extra_latency_ns_fits : m.extra_latency_ns < 18_446_744_073_709_551_616
    pub inject_failure_at_fits : IsText m.inject_failure_at
    pub speed_factor_fits : is_zero m.speed_factor ≡ true → m.speed_factor ≡ zero_double
    pub unknown_fits : Carried rt field_numbers options w m.unknown

  -- A number that the constructor does not list takes the default case.
  pub read_field-foreign :
      (n : ℕ) (wt : WireType) (m : StartReplayRequest rt) (r : Reader Byte)
      → contains field_numbers n ≡ false
      → read_field rt options n wt m r
        ≡ default_case rt options type_name (λ us. record m { unknown = us }) n wt m.unknown r
  unfolding read_field
  read_field-foreign n wt m r h =
      switch-foreign n (cases rt options m r)
        (default_case rt options type_name (λ us. record m { unknown = us }) n wt m.unknown r) h

  pub write-Passes :
      (m : StartReplayRequest rt)
      → Fits m
      → Passes laws (read_field rt options) (internal_binary_write rt w m) (create rt) m
  unfolding create read_field internal_binary_write
  write-Passes m fits =
      let fields = read_field rt options in
      let s0 : StartReplayRequest rt = create rt in
      let s1 : StartReplayRequest rt = record s0 { transaction_id = m.transaction_id } in
      let s2 : StartReplayRequest rt = record s1 { timeout_override_ns = m.timeout_override_ns } in
      let s3 : StartReplayRequest rt = record s2 { latency_multiplier = m.latency_multiplier } in
      let s4 : StartReplayRequest rt = record s3 { extra_latency_ns = m.extra_latency_ns } in
      let s5 : StartReplayRequest rt = record s4 { inject_failure_at = m.inject_failure_at } in
      let s6 : StartReplayRequest rt = record s5 { speed_factor = m.speed_factor } in
      let p6 =
        Passes-unknown laws fields type_name field_numbers options w
          (λ us. record s6 { unknown = us }) m.unknown
          (λ k wt ws r h. read_field-foreign k wt (record s6 { unknown = ws }) r h)
          fits.unknown_fits in
      let p5 =
        Passes-append laws fields _ _ s5 s6 m
          (Passes-double laws fields 6 (omega arith) s5 (λ a. record s5 { speed_factor = a })
            m.speed_factor (λ r. refl) refl fits.speed_factor_fits)
          p6 in
      let p4 =
        Passes-append laws fields _ _ s4 s5 m
          (Passes-string laws fields 5 (omega arith) s4 (λ a. record s4 { inject_failure_at = a })
            m.inject_failure_at (λ r. refl) refl fits.inject_failure_at_fits)
          p5 in
      let p3 =
        Passes-append laws fields _ _ s3 s4 m
          (Passes-uint64 laws fields 4 (omega arith) s3 (λ a. record s3 { extra_latency_ns = a })
            m.extra_latency_ns (λ r. refl) refl fits.extra_latency_ns_fits)
          p4 in
      let p2 =
        Passes-append laws fields _ _ s2 s3 m
          (Passes-double laws fields 3 (omega arith) s2 (λ a. record s2 { latency_multiplier = a })
            m.latency_multiplier (λ r. refl) refl fits.latency_multiplier_fits)
          p3 in
      let p1 =
        Passes-append laws fields _ _ s1 s2 m
          (Passes-uint64 laws fields 2 (omega arith) s1 (λ a. record s1 { timeout_override_ns = a })
            m.timeout_override_ns (λ r. refl) refl fits.timeout_override_ns_fits)
          p2 in
      let p0 =
        Passes-append laws fields _ _ s0 s1 m
          (Passes-string laws fields 1 (omega arith) s0 (λ a. record s0 { transaction_id = a })
            m.transaction_id (λ r. refl) refl fits.transaction_id_fits)
          p1 in
      p0

module _ {rt : Runtime} (laws : Laws rt) (options : ReadUnknown rt.Byte) where
  pub read_field-Settles : AllSettle (read_field rt options)
  unfolding read_field
  read_field-Settles n wt m r =
      switch-Settles (length r.left) n (cases rt options m r)
        (default_case rt options type_name (λ us. record m { unknown = us }) n wt m.unknown r)
        (
          assign-Settles rt.get_string _ r laws.string-Consumes,
          (
            assign-Settles rt.get_uint64 _ r laws.uint64-Consumes,
            (
              assign-Settles rt.get_double _ r laws.double-Consumes,
              (
                assign-Settles rt.get_uint64 _ r laws.uint64-Consumes,
                (
                  assign-Settles rt.get_string _ r laws.string-Consumes,
                  (assign-Settles rt.get_double _ r laws.double-Consumes, tt),
                ),
              ),
            ),
          ),
        )
        (unknown-Settles laws options type_name n wt m.unknown (λ us. record m { unknown = us }) r)
