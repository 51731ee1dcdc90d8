-- ===== src/Proto/QueryTimeRangeRequest.antt =====
-- console/src/generated/kprobe.ts: the message `QueryTimeRangeRequest`, its reading and its writing.
use kprobe.Proto.Shared.{
  ℕ, ◌<◌, String, false, List, [], ◌∷◌, length, contains, ◌==◌, nat_key, string_key, ◌≡◌, refl,
  arith, Runtime, Laws, WireType, UnknownField, ReadUnknown, WriteUnknown, Carried, Result, Reader,
  Fields, assign, default_case, switch, in_order, switch-foreign, switch-Settles, put_scalar,
  write_unknown, read_to_end, Passes, Passes-append, Passes-unknown, Passes-uint64, AllSettle,
  assign-Settles, unknown-Settles,
}

-- `unknown` is what the handler of unknown fields attached to the message.
pub record QueryTimeRangeRequest (Byte : Type 0) : Type 0 where
  pub from_ns : ℕ
  pub to_ns : ℕ
  pub unknown : List (UnknownField Byte)

-- `this.typeName`, and the numbers of the fields that the constructor lists.
abbrev pub type_name : String
type_name = "kprobe.QueryTimeRangeRequest"

abbrev pub field_numbers : List ℕ
field_numbers = 1 ∷ 2 ∷ []

module _ (rt : Runtime) where
  open rt use {Byte, get_uint64, put_uint64}

  pub create : QueryTimeRangeRequest Byte
  create = record { from_ns = 0; to_ns = 0; unknown = [] }

  -- The cases of the `switch` on the number of a field.
  abbrev cases :
      ReadUnknown Byte
      → QueryTimeRangeRequest Byte
      → Reader Byte
      → List (ℕ × Result (QueryTimeRangeRequest Byte × Reader Byte))
  cases options m r =
      (1, assign get_uint64 (λ a. record m { from_ns = a }) r)
      ∷ (2, assign get_uint64 (λ a. record m { to_ns = a }) r)
      ∷ []

  pub read_field : ReadUnknown Byte → Fields Byte (QueryTimeRangeRequest Byte)
  read_field options field_no wt m r =
      switch field_no (cases options m r) (
        default_case rt options type_name (λ us. record m { unknown = us }) field_no wt m.unknown r)

  unfoldable pub internal_binary_read :
      ReadUnknown Byte
      → ℕ
      → QueryTimeRangeRequest Byte
      → Reader Byte
      → Result (QueryTimeRangeRequest Byte × Reader Byte)
  unfolding read_field read_to_end
  internal_binary_read options = read_to_end rt (read_field options)

  -- The bytes that are appended to the writer.
  pub internal_binary_write : WriteUnknown Byte → QueryTimeRangeRequest Byte → List Byte
  internal_binary_write options m =
      in_order
        (put_scalar rt (m.from_ns == 0) 1 WireType.varint (put_uint64 m.from_ns)
          ∷ put_scalar rt (m.to_ns == 0) 2 WireType.varint (put_uint64 m.to_ns)
          ∷ [])
        (write_unknown rt options type_name m.unknown)

module _ {rt : Runtime} (laws : Laws rt) (options : ReadUnknown rt.Byte)
    (w : WriteUnknown rt.Byte) where
  open rt use {Byte, get_uint64}

  -- What the format carries of a message.
  pub record Fits (m : QueryTimeRangeRequest Byte) : Type 0 where
    pub from_ns_fits : m.from_ns < 18_446_744_073_709_551_616
    pub to_ns_fits : m.to_ns < 18_446_744_073_709_551_616
    pub unknown_fits : Carried rt field_numbers options w m.unknown

  -- A number that the constructor does not list takes the default case.
  pub read_field-foreign :
      (n : ℕ) (wt : WireType) (m : QueryTimeRangeRequest Byte) (r : Reader Byte)
      → contains field_numbers n ≡ false
      → read_field rt options n wt m r
        ≡ default_case rt options type_name (λ us. record m { unknown = us }) n wt m.unknown r
  unfolding read_field
  read_field-foreign n wt m r h =
      switch-foreign n (cases rt options m r)
        (default_case rt options type_name (λ us. record m { unknown = us }) n wt m.unknown r) h

  pub write-Passes :
      (m : QueryTimeRangeRequest Byte)
      → Fits m
      → Passes laws (read_field rt options) (internal_binary_write rt w m) (create rt) m
  unfolding create read_field internal_binary_write
  write-Passes m fits =
      let fields = read_field rt options in
      let s0 : QueryTimeRangeRequest Byte = create rt in
      let s1 : QueryTimeRangeRequest Byte = record s0 { from_ns = m.from_ns } in
      let s2 : QueryTimeRangeRequest Byte = record s1 { to_ns = m.to_ns } in
      let p2 =
        Passes-unknown laws fields type_name field_numbers options w
          (λ us. record s2 { unknown = us }) m.unknown
          (λ k wt ws r h. read_field-foreign k wt (record s2 { unknown = ws }) r h)
          fits.unknown_fits in
      let p1 =
        Passes-append laws fields _ _ s1 s2 m
          (Passes-uint64 laws fields 2 (omega arith) s1 (λ a. record s1 { to_ns = a }) m.to_ns
            (λ r. refl) refl fits.to_ns_fits)
          p2 in
      let p0 =
        Passes-append laws fields _ _ s0 s1 m
          (Passes-uint64 laws fields 1 (omega arith) s0 (λ a. record s0 { from_ns = a }) m.from_ns
            (λ r. refl) refl fits.from_ns_fits)
          p1 in
      p0

module _ {rt : Runtime} (laws : Laws rt) (options : ReadUnknown rt.Byte) where
  pub read_field-Settles : AllSettle (read_field rt options)
  unfolding read_field
  read_field-Settles n wt m r =
      switch-Settles (length r.left) n (cases rt options m r)
        (default_case rt options type_name (λ us. record m { unknown = us }) n wt m.unknown r)
        (
          assign-Settles rt.get_uint64 _ r laws.uint64-Consumes,
          (assign-Settles rt.get_uint64 _ r laws.uint64-Consumes, tt),
        )
        (unknown-Settles laws options type_name n wt m.unknown (λ us. record m { unknown = us }) r)
