-- ===== src/Proto/StreamEventsRequest.antt =====
-- console/src/generated/kprobe.ts: the message `StreamEventsRequest`, its reading and its writing.
use kprobe.Proto.Shared.{
  ℕ, String, false, List, [], length, contains, nat_key, string_key, ◌≡◌, Runtime, Laws, WireType,
  UnknownField, ReadUnknown, WriteUnknown, Carried, Result, Reader, Fields, default_case, switch,
  in_order, switch-foreign, switch-Settles, write_unknown, read_to_end, Passes, Passes-unknown,
  AllSettle, unknown-Settles,
}

-- `unknown` is what the handler of unknown fields attached to the message.
pub record StreamEventsRequest (Byte : Type 0) : Type 0 where
  pub unknown : List (UnknownField Byte)

-- `this.typeName`, and the numbers of the fields that the constructor lists.
abbrev pub type_name : String
type_name = "kprobe.StreamEventsRequest"

abbrev pub field_numbers : List ℕ
field_numbers = []

module _ (rt : Runtime) where
  open rt use {Byte}

  pub create : StreamEventsRequest Byte
  create = record { unknown = [] }

  -- The cases of the `switch` on the number of a field.
  abbrev cases :
      ReadUnknown Byte
      → StreamEventsRequest Byte
      → Reader Byte
      → List (ℕ × Result (StreamEventsRequest Byte × Reader Byte))
  cases options m r = []

  pub read_field : ReadUnknown Byte → Fields Byte (StreamEventsRequest Byte)
  read_field options field_no wt m r =
      switch field_no (cases options m r) (
        default_case rt options type_name (λ us. record m { unknown = us }) field_no wt m.unknown r)

  unfoldable pub internal_binary_read :
      ReadUnknown Byte
      → ℕ
      → StreamEventsRequest Byte
      → Reader Byte
      → Result (StreamEventsRequest Byte × Reader Byte)
  unfolding read_field read_to_end
  internal_binary_read options = read_to_end rt (read_field options)

  -- The bytes that are appended to the writer.
  pub internal_binary_write : WriteUnknown Byte → StreamEventsRequest Byte → List Byte
  internal_binary_write options m = in_order ([]) (write_unknown rt options type_name m.unknown)

module _ {rt : Runtime} (laws : Laws rt) (options : ReadUnknown rt.Byte)
    (w : WriteUnknown rt.Byte) where
  open rt use {Byte}

  -- What the format carries of a message.
  pub record Fits (m : StreamEventsRequest Byte) : Type 0 where
    pub unknown_fits : Carried rt field_numbers options w m.unknown

  -- A number that the constructor does not list takes the default case.
  pub read_field-foreign :
      (n : ℕ) (wt : WireType) (m : StreamEventsRequest Byte) (r : Reader Byte)
      → contains field_numbers n ≡ false
      → read_field rt options n wt m r
        ≡ default_case rt options type_name (λ us. record m { unknown = us }) n wt m.unknown r
  unfolding read_field
  read_field-foreign n wt m r h =
      switch-foreign n (cases rt options m r)
        (default_case rt options type_name (λ us. record m { unknown = us }) n wt m.unknown r) h

  pub write-Passes :
      (m : StreamEventsRequest Byte)
      → Fits m
      → Passes laws (read_field rt options) (internal_binary_write rt w m) (create rt) m
  unfolding create read_field internal_binary_write
  write-Passes m fits =
      let fields = read_field rt options in
      let s0 : StreamEventsRequest Byte = create rt in
      let p0 =
        Passes-unknown laws fields type_name field_numbers options w
          (λ us. record s0 { unknown = us }) m.unknown
          (λ k wt ws r h. read_field-foreign k wt (record s0 { unknown = ws }) r h)
          fits.unknown_fits in
      p0

module _ {rt : Runtime} (laws : Laws rt) (options : ReadUnknown rt.Byte) where
  pub read_field-Settles : AllSettle (read_field rt options)
  unfolding read_field
  read_field-Settles n wt m r =
      switch-Settles (length r.left) n (cases rt options m r)
        (default_case rt options type_name (λ us. record m { unknown = us }) n wt m.unknown r) tt
        (unknown-Settles laws options type_name n wt m.unknown (λ us. record m { unknown = us }) r)
