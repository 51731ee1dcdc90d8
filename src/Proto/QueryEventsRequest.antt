-- ===== src/Proto/QueryEventsRequest.antt =====
-- console/src/generated/kprobe.ts: the message `QueryEventsRequest`, its reading and its writing.
use kprobe.Proto.Shared.{
  ℕ, String, false, List, [], ◌∷◌, length, contains, ◌==◌, nat_key, string_key, ◌≡◌, refl, arith,
  Runtime, Laws, WireType, UnknownField, ReadUnknown, WriteUnknown, Carried, Result, Reader, Fields,
  assign, default_case, switch, in_order, switch-foreign, switch-Settles, put_scalar, write_unknown,
  read_to_end, Passes, Passes-append, Passes-unknown, Passes-string, AllSettle, assign-Settles,
  unknown-Settles,
}

-- `unknown` is what the handler of unknown fields attached to the message.
pub record QueryEventsRequest (Byte : Type 0) : Type 0 where
  pub transaction_id : String
  pub unknown : List (UnknownField Byte)

-- `this.typeName`, and the numbers of the fields that the constructor lists.
abbrev pub type_name : String
type_name = "kprobe.QueryEventsRequest"

abbrev pub field_numbers : List ℕ
field_numbers = 1 ∷ []

module _ (rt : Runtime) where
  open rt use {Byte, get_string, put_string}

  pub create : QueryEventsRequest Byte
  create = record { transaction_id = ""; unknown = [] }

  -- The cases of the `switch` on the number of a field.
  abbrev cases :
      ReadUnknown Byte
      → QueryEventsRequest Byte
      → Reader Byte
      → List (ℕ × Result (QueryEventsRequest Byte × Reader Byte))
  cases options m r = (1, assign get_string (λ a. record m { transaction_id = a }) r) ∷ []

  pub read_field : ReadUnknown Byte → Fields Byte (QueryEventsRequest Byte)
  read_field options field_no wt m r =
      switch field_no (cases options m r) (
        default_case rt options type_name (λ us. record m { unknown = us }) field_no wt m.unknown r)

  unfoldable pub internal_binary_read :
      ReadUnknown Byte
      → ℕ
      → QueryEventsRequest Byte
      → Reader Byte
      → Result (QueryEventsRequest Byte × Reader Byte)
  unfolding read_field read_to_end
  internal_binary_read options = read_to_end rt (read_field options)

  -- The bytes that are appended to the writer.
  pub internal_binary_write : WriteUnknown Byte → QueryEventsRequest Byte → List Byte
  internal_binary_write options m =
      in_order
        (put_scalar rt (m.transaction_id == "") 1 WireType.length_delimited
            (put_string m.transaction_id)
          ∷ [])
        (write_unknown rt options type_name m.unknown)

module _ {rt : Runtime} (laws : Laws rt) (options : ReadUnknown rt.Byte)
    (w : WriteUnknown rt.Byte) where
  open rt use {Byte, get_string}
  open laws use {IsText}

  -- What the format carries of a message.
  pub record Fits (m : QueryEventsRequest Byte) : Type 0 where
    pub transaction_id_fits : IsText m.transaction_id
    pub unknown_fits : Carried rt field_numbers options w m.unknown

  -- A number that the constructor does not list takes the default case.
  pub read_field-foreign :
      (n : ℕ) (wt : WireType) (m : QueryEventsRequest Byte) (r : Reader Byte)
      → contains field_numbers n ≡ false
      → read_field rt options n wt m r
        ≡ default_case rt options type_name (λ us. record m { unknown = us }) n wt m.unknown r
  unfolding read_field
  read_field-foreign n wt m r h =
      switch-foreign n (cases rt options m r)
        (default_case rt options type_name (λ us. record m { unknown = us }) n wt m.unknown r) h

  pub write-Passes :
      (m : QueryEventsRequest Byte)
      → Fits m
      → Passes laws (read_field rt options) (internal_binary_write rt w m) (create rt) m
  unfolding create read_field internal_binary_write
  write-Passes m fits =
      let fields = read_field rt options in
      let s0 : QueryEventsRequest Byte = create rt in
      let s1 : QueryEventsRequest Byte = record s0 { transaction_id = m.transaction_id } in
      let p1 =
        Passes-unknown laws fields type_name field_numbers options w
          (λ us. record s1 { unknown = us }) m.unknown
          (λ k wt ws r h. read_field-foreign k wt (record s1 { unknown = ws }) r h)
          fits.unknown_fits in
      let p0 =
        Passes-append laws fields _ _ s0 s1 m
          (Passes-string laws fields 1 (omega arith) s0 (λ a. record s0 { transaction_id = a })
            m.transaction_id (λ r. refl) refl fits.transaction_id_fits)
          p1 in
      p0

module _ {rt : Runtime} (laws : Laws rt) (options : ReadUnknown rt.Byte) where
  pub read_field-Settles : AllSettle (read_field rt options)
  unfolding read_field
  read_field-Settles n wt m r =
      switch-Settles (length r.left) n (cases rt options m r)
        (default_case rt options type_name (λ us. record m { unknown = us }) n wt m.unknown r)
        (assign-Settles rt.get_string _ r laws.string-Consumes, tt)
        (unknown-Settles laws options type_name n wt m.unknown (λ us. record m { unknown = us }) r)
