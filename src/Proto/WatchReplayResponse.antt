-- ===== src/Proto/WatchReplayResponse.antt =====
-- console/src/generated/kprobe.ts: the message `WatchReplayResponse`, its reading and its writing.
use kprobe.Proto.Shared.{
  ℕ, ◌<◌, String, false, Option, none, some, List, [], ◌∷◌, length, contains, ◌==◌, nat_key,
  string_key, ◌≡◌, refl, arith, Runtime, Laws, WireType, UnknownField, ReadUnknown, WriteUnknown,
  Carried, Result, Reader, Fields, assign, nested, default_case, switch, in_order, switch-foreign,
  switch-Settles, put_scalar, put_optional, write_unknown, read_to_end, Passes, Passes-append,
  Passes-optional, Passes-unknown, Passes-string, AllSettle, assign-Settles, nested-Settles,
  unknown-Settles,
}
use kprobe.Proto.ReplayEventProto
use kprobe.Proto.ReplayEventProto.{ReplayEventProto}

-- `unknown` is what the handler of unknown fields attached to the message.
pub record WatchReplayResponse (Byte : Type 0) : Type 0 where
  pub event : Option (ReplayEventProto Byte)
  pub state : String
  pub unknown : List (UnknownField Byte)

-- `this.typeName`, and the numbers of the fields that the constructor lists.
abbrev pub type_name : String
type_name = "kprobe.WatchReplayResponse"

abbrev pub field_numbers : List ℕ
field_numbers = 1 ∷ 2 ∷ []

module _ (rt : Runtime) where
  open rt use {Byte, get_string, put_string}

  pub create : WatchReplayResponse Byte
  create = record { event = none; state = ""; unknown = [] }

  -- The cases of the `switch` on the number of a field.
  abbrev cases :
      ReadUnknown Byte
      → WatchReplayResponse Byte
      → Reader Byte
      → List (ℕ × Result (WatchReplayResponse Byte × Reader Byte))
  cases options m r =
      (
        1,
        nested rt
            (λ size r1.
              ReplayEventProto.internal_binary_read rt options size
                (elim m.event [ none ↦ ReplayEventProto.create rt | some a ↦ a ]) r1)
            (λ a. record m { event = some a }) r,
      )
      ∷ (2, assign get_string (λ a. record m { state = a }) r)
      ∷ []

  pub read_field : ReadUnknown Byte → Fields Byte (WatchReplayResponse Byte)
  read_field options field_no wt m r =
      switch field_no (cases options m r) (
        default_case rt options type_name (λ us. record m { unknown = us }) field_no wt m.unknown r)

  unfoldable pub internal_binary_read :
      ReadUnknown Byte
      → ℕ
      → WatchReplayResponse Byte
      → Reader Byte
      → Result (WatchReplayResponse Byte × Reader Byte)
  unfolding read_field read_to_end
  internal_binary_read options = read_to_end rt (read_field options)

  -- The bytes that are appended to the writer.
  pub internal_binary_write : WriteUnknown Byte → WatchReplayResponse Byte → List Byte
  internal_binary_write options m =
      in_order
        (put_optional rt 1 (ReplayEventProto.internal_binary_write rt options) m.event
          ∷ put_scalar rt (m.state == "") 2 WireType.length_delimited (put_string m.state)
          ∷ [])
        (write_unknown rt options type_name m.unknown)

module _ {rt : Runtime} (laws : Laws rt) (options : ReadUnknown rt.Byte)
    (w : WriteUnknown rt.Byte) where
  open rt use {Byte, get_string}
  open laws use {IsText}

  -- What the format carries of a message.
  pub record Fits (m : WatchReplayResponse Byte) : Type 0 where
    pub event_fits :
        (a : ReplayEventProto Byte)
        → m.event ≡ some a
        → ReplayEventProto.Fits laws options w a
          × (length (ReplayEventProto.internal_binary_write rt w a) < 4_294_967_296)
    pub state_fits : IsText m.state
    pub unknown_fits : Carried rt field_numbers options w m.unknown

  -- A number that the constructor does not list takes the default case.
  pub read_field-foreign :
      (n : ℕ) (wt : WireType) (m : WatchReplayResponse Byte) (r : Reader Byte)
      → contains field_numbers n ≡ false
      → read_field rt options n wt m r
        ≡ default_case rt options type_name (λ us. record m { unknown = us }) n wt m.unknown r
  unfolding read_field
  read_field-foreign n wt m r h =
      switch-foreign n (cases rt options m r)
        (default_case rt options type_name (λ us. record m { unknown = us }) n wt m.unknown r) h

  pub write-Passes :
      (m : WatchReplayResponse Byte)
      → Fits m
      → Passes laws (read_field rt options) (internal_binary_write rt w m) (create rt) m
  unfolding create read_field internal_binary_write
  write-Passes m fits =
      let fields = read_field rt options in
      let s0 : WatchReplayResponse Byte = create rt in
      let s1 : WatchReplayResponse Byte = record s0 { event = m.event } in
      let s2 : WatchReplayResponse Byte = record s1 { state = m.state } in
      let p2 =
        Passes-unknown laws fields type_name field_numbers options w
          (λ us. record s2 { unknown = us }) m.unknown
          (λ k wt ws r h. read_field-foreign k wt (record s2 { unknown = ws }) r h)
          fits.unknown_fits in
      let p1 =
        Passes-append laws fields _ _ s1 s2 m
          (Passes-string laws fields 2 (omega arith) s1 (λ a. record s1 { state = a }) m.state
            (λ r. refl) refl fits.state_fits)
          p2 in
      let p0 =
        Passes-append laws fields _ _ s0 s1 m
          (Passes-optional laws fields 1 (omega arith) s0 (λ a. record s0 { event = a })
            (ReplayEventProto.internal_binary_write rt w)
            (λ size r1.
              ReplayEventProto.internal_binary_read rt options size (ReplayEventProto.create rt) r1)
            m.event refl (λ r. refl)
            (λ a e.
              let (inner, small) = fits.event_fits a e in
              (small, ReplayEventProto.read-write laws options w a inner)))
          p1 in
      p0

module _ {rt : Runtime} (laws : Laws rt) (options : ReadUnknown rt.Byte) where
  pub read_field-Settles : AllSettle (read_field rt options)
  unfolding read_field
  read_field-Settles n wt m r =
      switch-Settles (length r.left) n (cases rt options m r)
        (default_case rt options type_name (λ us. record m { unknown = us }) n wt m.unknown r)
        (
          nested-Settles laws _ _ r
              (λ size r1. ReplayEventProto.internal_binary_read-Settles laws options size _ r1),
          (assign-Settles rt.get_string _ r laws.string-Consumes, tt),
        )
        (unknown-Settles laws options type_name n wt m.unknown (λ us. record m { unknown = us }) r)
