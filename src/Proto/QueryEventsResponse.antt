-- ===== src/Proto/QueryEventsResponse.antt =====
-- console/src/generated/kprobe.ts: the message `QueryEventsResponse`, its reading and its writing.
use kprobe.Proto.Shared.{
  ℕ, ◌<◌, String, false, List, [], ◌∷◌, ◌++◌, length, contains, All, All-map, nat_key, string_key,
  ◌≡◌, refl, arith, Runtime, Laws, WireType, UnknownField, ReadUnknown, WriteUnknown, Carried,
  Result, Reader, Fields, nested, default_case, switch, in_order, switch-foreign, switch-Settles,
  put_repeated, write_unknown, read_to_end, Passes, Passes-append, Passes-repeated, Passes-unknown,
  AllSettle, nested-Settles, unknown-Settles,
}
use kprobe.Proto.KernelEventProto
use kprobe.Proto.KernelEventProto.{KernelEventProto}

-- `unknown` is what the handler of unknown fields attached to the message.
pub record QueryEventsResponse (Byte : Type 0) : Type 0 where
  pub events : List (KernelEventProto Byte)
  pub unknown : List (UnknownField Byte)

-- `this.typeName`, and the numbers of the fields that the constructor lists.
abbrev pub type_name : String
type_name = "kprobe.QueryEventsResponse"

abbrev pub field_numbers : List ℕ
field_numbers = 1 ∷ []

module _ (rt : Runtime) where
  open rt use {Byte}

  pub create : QueryEventsResponse Byte
  create = record { events = []; unknown = [] }

  -- The cases of the `switch` on the number of a field.
  abbrev cases :
      ReadUnknown Byte
      → QueryEventsResponse Byte
      → Reader Byte
      → List (ℕ × Result (QueryEventsResponse Byte × Reader Byte))
  cases options m r =
      (
        1,
        nested rt
            (λ size r1.
              KernelEventProto.internal_binary_read rt options size (KernelEventProto.create rt) r1)
            (λ a. record m { events = m.events ++ a ∷ [] }) r,
      )
      ∷ []

  pub read_field : ReadUnknown Byte → Fields Byte (QueryEventsResponse Byte)
  read_field options field_no wt m r =
      switch field_no (cases options m r) (
        default_case rt options type_name (λ us. record m { unknown = us }) field_no wt m.unknown r)

  unfoldable pub internal_binary_read :
      ReadUnknown Byte
      → ℕ
      → QueryEventsResponse Byte
      → Reader Byte
      → Result (QueryEventsResponse Byte × Reader Byte)
  unfolding read_field read_to_end
  internal_binary_read options = read_to_end rt (read_field options)

  -- The bytes that are appended to the writer.
  pub internal_binary_write : WriteUnknown Byte → QueryEventsResponse Byte → List Byte
  internal_binary_write options m =
      in_order (put_repeated rt 1 (KernelEventProto.internal_binary_write rt options) m.events ∷ [])
        (write_unknown rt options type_name m.unknown)

module _ {rt : Runtime} (laws : Laws rt) (options : ReadUnknown rt.Byte)
    (w : WriteUnknown rt.Byte) where
  open rt use {Byte}

  -- What the format carries of a message.
  pub record Fits (m : QueryEventsResponse Byte) : Type 0 where
    pub events_fits :
        All
          (λ a.
            KernelEventProto.Fits laws options w a
            × (length (KernelEventProto.internal_binary_write rt w a) < 4_294_967_296))
          m.events
    pub unknown_fits : Carried rt field_numbers options w m.unknown

  -- A number that the constructor does not list takes the default case.
  pub read_field-foreign :
      (n : ℕ) (wt : WireType) (m : QueryEventsResponse Byte) (r : Reader Byte)
      → contains field_numbers n ≡ false
      → read_field rt options n wt m r
        ≡ default_case rt options type_name (λ us. record m { unknown = us }) n wt m.unknown r
  unfolding read_field
  read_field-foreign n wt m r h =
      switch-foreign n (cases rt options m r)
        (default_case rt options type_name (λ us. record m { unknown = us }) n wt m.unknown r) h

  pub write-Passes :
      (m : QueryEventsResponse Byte)
      → Fits m
      → Passes laws (read_field rt options) (internal_binary_write rt w m) (create rt) m
  unfolding create read_field internal_binary_write
  write-Passes m fits =
      let fields = read_field rt options in
      let s0 : QueryEventsResponse Byte = create rt in
      let s1 : QueryEventsResponse Byte = record s0 { events = m.events } in
      let p1 =
        Passes-unknown laws fields type_name field_numbers options w
          (λ us. record s1 { unknown = us }) m.unknown
          (λ k wt ws r h. read_field-foreign k wt (record s1 { unknown = ws }) r h)
          fits.unknown_fits in
      let p0 =
        Passes-append laws fields _ _ s0 s1 m
          (Passes-repeated laws fields 1 (omega arith) (λ a. record s0 { events = a })
            (KernelEventProto.internal_binary_write rt w)
            (λ size r1.
              KernelEventProto.internal_binary_read rt options size (KernelEventProto.create rt) r1)
            [] m.events (λ zs r. refl)
            (All-map
              (λ a (inner, small). (small, KernelEventProto.read-write laws options w a inner))
              m.events fits.events_fits))
          p1 in
      p0

module _ {rt : Runtime} (laws : Laws rt) (options : ReadUnknown rt.Byte) where
  pub read_field-Settles : AllSettle (read_field rt options)
  unfolding read_field
  read_field-Settles n wt m r =
      switch-Settles (length r.left) n (cases rt options m r)
        (default_case rt options type_name (λ us. record m { unknown = us }) n wt m.unknown r)
        (
          nested-Settles laws _ _ r
              (λ size r1. KernelEventProto.internal_binary_read-Settles laws options size _ r1),
          tt,
        )
        (unknown-Settles laws options type_name n wt m.unknown (λ us. record m { unknown = us }) r)
