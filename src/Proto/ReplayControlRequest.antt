-- ===== src/Proto/ReplayControlRequest.antt =====
-- console/src/generated/kprobe.ts: the message `ReplayControlRequest`, its reading and its writing.
use kprobe.Proto.Shared.{
  ℕ, String, false, List, [], ◌∷◌, length, contains, ◌==◌, nat_key, string_key, ◌≡◌, refl, arith,
  Runtime, Laws, ℤ, is_zero_int, WireType, UnknownField, ReadUnknown, WriteUnknown, Carried, Result,
  Reader, Fields, assign, default_case, switch, in_order, switch-foreign, switch-Settles,
  put_scalar, write_unknown, read_to_end, Passes, Passes-append, Passes-unknown, Passes-string,
  Passes-int32, AllSettle, assign-Settles, unknown-Settles,
}

-- `unknown` is what the handler of unknown fields attached to the message.
pub record ReplayControlRequest (Byte : Type 0) : Type 0 where
  pub session_id : String
  pub command : String
  pub seek_index : ℤ
  pub unknown : List (UnknownField Byte)

-- `this.typeName`, and the numbers of the fields that the constructor lists.
abbrev pub type_name : String
type_name = "kprobe.ReplayControlRequest"

abbrev pub field_numbers : List ℕ
field_numbers = 1 ∷ 2 ∷ 3 ∷ []

module _ (rt : Runtime) where
  open rt use {Byte, get_string, get_int32, put_string, put_int32}

  pub create : ReplayControlRequest Byte
  create = record { session_id = ""; command = ""; seek_index = ℤ.pos 0; unknown = [] }

  -- The cases of the `switch` on the number of a field.
  abbrev cases :
      ReadUnknown Byte
      → ReplayControlRequest Byte
      → Reader Byte
      → List (ℕ × Result (ReplayControlRequest Byte × Reader Byte))
  cases options m r =
      (1, assign get_string (λ a. record m { session_id = a }) r)
      ∷ (2, assign get_string (λ a. record m { command = a }) r)
      ∷ (3, assign get_int32 (λ a. record m { seek_index = a }) r)
      ∷ []

  pub read_field : ReadUnknown Byte → Fields Byte (ReplayControlRequest Byte)
  read_field options field_no wt m r =
      switch field_no (cases options m r) (
        default_case rt options type_name (λ us. record m { unknown = us }) field_no wt m.unknown r)

  unfoldable pub internal_binary_read :
      ReadUnknown Byte
      → ℕ
      → ReplayControlRequest Byte
      → Reader Byte
      → Result (ReplayControlRequest Byte × Reader Byte)
  unfolding read_field read_to_end
  internal_binary_read options = read_to_end rt (read_field options)

  -- The bytes that are appended to the writer.
  pub internal_binary_write : WriteUnknown Byte → ReplayControlRequest Byte → List Byte
  internal_binary_write options m =
      in_order
        (put_scalar rt (m.session_id == "") 1 WireType.length_delimited (put_string m.session_id)
          ∷ put_scalar rt (m.command == "") 2 WireType.length_delimited (put_string m.command)
          ∷ put_scalar rt (is_zero_int m.seek_index) 3 WireType.varint (put_int32 m.seek_index)
          ∷ [])
        (write_unknown rt options type_name m.unknown)

module _ {rt : Runtime} (laws : Laws rt) (options : ReadUnknown rt.Byte)
    (w : WriteUnknown rt.Byte) where
  open rt use {Byte, get_string, get_int32}
  open laws use {IsText, IsInt32}

  -- What the format carries of a message.
  pub record Fits (m : ReplayControlRequest Byte) : Type 0 where
    pub session_id_fits : IsText m.session_id
    pub command_fits : IsText m.command
    pub seek_index_fits : IsInt32 m.seek_index
    pub unknown_fits : Carried rt field_numbers options w m.unknown

  -- A number that the constructor does not list takes the default case.
  pub read_field-foreign :
      (n : ℕ) (wt : WireType) (m : ReplayControlRequest Byte) (r : Reader Byte)
      → contains field_numbers n ≡ false
      → read_field rt options n wt m r
        ≡ default_case rt options type_name (λ us. record m { unknown = us }) n wt m.unknown r
  unfolding read_field
  read_field-foreign n wt m r h =
      switch-foreign n (cases rt options m r)
        (default_case rt options type_name (λ us. record m { unknown = us }) n wt m.unknown r) h

  pub write-Passes :
      (m : ReplayControlRequest Byte)
      → Fits m
      → Passes laws (read_field rt options) (internal_binary_write rt w m) (create rt) m
  unfolding create read_field internal_binary_write
  write-Passes m fits =
      let fields = read_field rt options in
      let s0 : ReplayControlRequest Byte = create rt in
      let s1 : ReplayControlRequest Byte = record s0 { session_id = m.session_id } in
      let s2 : ReplayControlRequest Byte = record s1 { command = m.command } in
      let s3 : ReplayControlRequest Byte = record s2 { seek_index = m.seek_index } in
      let p3 =
        Passes-unknown laws fields type_name field_numbers options w
          (λ us. record s3 { unknown = us }) m.unknown
          (λ k wt ws r h. read_field-foreign k wt (record s3 { unknown = ws }) r h)
          fits.unknown_fits in
      let p2 =
        Passes-append laws fields _ _ s2 s3 m
          (Passes-int32 laws fields 3 (omega arith) s2 (λ a. record s2 { seek_index = a })
            m.seek_index (λ r. refl) refl fits.seek_index_fits)
          p3 in
      let p1 =
        Passes-append laws fields _ _ s1 s2 m
          (Passes-string laws fields 2 (omega arith) s1 (λ a. record s1 { command = a }) m.command
            (λ r. refl) refl fits.command_fits)
          p2 in
      let p0 =
        Passes-append laws fields _ _ s0 s1 m
          (Passes-string laws fields 1 (omega arith) s0 (λ a. record s0 { session_id = a })
            m.session_id (λ r. refl) refl fits.session_id_fits)
          p1 in
      p0

module _ {rt : Runtime} (laws : Laws rt) (options : ReadUnknown rt.Byte) where
  pub read_field-Settles : AllSettle (read_field rt options)
  unfolding read_field
  read_field-Settles n wt m r =
      switch-Settles (length r.left) n (cases rt options m r)
        (default_case rt options type_name (λ us. record m { unknown = us }) n wt m.unknown r)
        (
          assign-Settles rt.get_string _ r laws.string-Consumes,
          (
            assign-Settles rt.get_string _ r laws.string-Consumes,
            (assign-Settles rt.get_int32 _ r laws.int32-Consumes, tt),
          ),
        )
        (unknown-Settles laws options type_name n wt m.unknown (λ us. record m { unknown = us }) r)
