-- ===== src/Proto/ReplayControlResponse.antt =====
-- console/src/generated/kprobe.ts: the message `ReplayControlResponse`, its reading and its writing.
use kprobe.Proto.Shared.{
  ℕ, String, false, List, [], ◌∷◌, length, contains, ◌==◌, nat_key, string_key, ◌≡◌, refl, arith,
  Runtime, Laws, ℤ, is_zero_int, WireType, UnknownField, ReadUnknown, WriteUnknown, Carried, Result,
  Reader, Fields, assign, default_case, switch, in_order, switch-foreign, switch-Settles,
  put_scalar, write_unknown, read_to_end, Passes, Passes-append, Passes-unknown, Passes-string,
  Passes-int32, AllSettle, assign-Settles, unknown-Settles,
}

-- `unknown` is what the handler of unknown fields attached to the message.
pub record ReplayControlResponse (Byte : Type 0) : Type 0 where
  pub session_id : String
  pub state : String
  pub cursor : ℤ
  pub unknown : List (UnknownField Byte)

-- `this.typeName`, and the numbers of the fields that the constructor lists.
abbrev pub type_name : String
type_name = "kprobe.ReplayControlResponse"

abbrev pub field_numbers : List ℕ
field_numbers = 1 ∷ 2 ∷ 3 ∷ []

module _ (rt : Runtime) where
  open rt use {Byte, get_string, get_int32, put_string, put_int32}

  pub create : ReplayControlResponse Byte
  create = record { session_id = ""; state = ""; cursor = ℤ.pos 0; unknown = [] }

  -- The cases of the `switch` on the number of a field.
  abbrev cases :
      ReadUnknown Byte
      → ReplayControlResponse Byte
      → Reader Byte
      → List (ℕ × Result (ReplayControlResponse Byte × Reader Byte))
  cases options m r =
      (1, assign get_string (λ a. record m { session_id = a }) r)
      ∷ (2, assign get_string (λ a. record m { state = a }) r)
      ∷ (3, assign get_int32 (λ a. record m { cursor = a }) r)
      ∷ []

  pub read_field : ReadUnknown Byte → Fields Byte (ReplayControlResponse Byte)
  read_field options field_no wt m r =
      switch field_no (cases options m r) (
        default_case rt options type_name (λ us. record m { unknown = us }) field_no wt m.unknown r)

  unfoldable pub internal_binary_read :
      ReadUnknown Byte
      → ℕ
      → ReplayControlResponse Byte
      → Reader Byte
      → Result (ReplayControlResponse Byte × Reader Byte)
  unfolding read_field read_to_end
  internal_binary_read options = read_to_end rt (read_field options)

  -- The bytes that are appended to the writer.
  pub internal_binary_write : WriteUnknown Byte → ReplayControlResponse Byte → List Byte
  internal_binary_write options m =
      in_order
        (put_scalar rt (m.session_id == "") 1 WireType.length_delimited (put_string m.session_id)
          ∷ put_scalar rt (m.state == "") 2 WireType.length_delimited (put_string m.state)
          ∷ put_scalar rt (is_zero_int m.cursor) 3 WireType.varint (put_int32 m.cursor)
          ∷ [])
        (write_unknown rt options type_name m.unknown)

module _ {rt : Runtime} (laws : Laws rt) (options : ReadUnknown rt.Byte)
    (w : WriteUnknown rt.Byte) where
  open rt use {Byte, get_string, get_int32}
  open laws use {IsText, IsInt32}

  -- What the format carries of a message.
  pub record Fits (m : ReplayControlResponse Byte) : Type 0 where
    pub session_id_fits : IsText m.session_id
    pub state_fits : IsText m.state
    pub cursor_fits : IsInt32 m.cursor
    pub unknown_fits : Carried rt field_numbers options w m.unknown

  -- A number that the constructor does not list takes the default case.
  pub read_field-foreign :
      (n : ℕ) (wt : WireType) (m : ReplayControlResponse Byte) (r : Reader Byte)
      → contains field_numbers n ≡ false
      → read_field rt options n wt m r
        ≡ default_case rt options type_name (λ us. record m { unknown = us }) n wt m.unknown r
  unfolding read_field
  read_field-foreign n wt m r h =
      switch-foreign n (cases rt options m r)
        (default_case rt options type_name (λ us. record m { unknown = us }) n wt m.unknown r) h

  pub write-Passes :
      (m : ReplayControlResponse Byte)
      → Fits m
      → Passes laws (read_field rt options) (internal_binary_write rt w m) (create rt) m
  unfolding create read_field internal_binary_write
  write-Passes m fits =
      let fields = read_field rt options in
      let s0 : ReplayControlResponse Byte = create rt in
      let s1 : ReplayControlResponse Byte = record s0 { session_id = m.session_id } in
      let s2 : ReplayControlResponse Byte = record s1 { state = m.state } in
      let s3 : ReplayControlResponse Byte = record s2 { cursor = m.cursor } in
      let p3 =
        Passes-unknown laws fields type_name field_numbers options w
          (λ us. record s3 { unknown = us }) m.unknown
          (λ k wt ws r h. read_field-foreign k wt (record s3 { unknown = ws }) r h)
          fits.unknown_fits in
      let p2 =
        Passes-append laws fields _ _ s2 s3 m
          (Passes-int32 laws fields 3 (omega arith) s2 (λ a. record s2 { cursor = a }) m.cursor
            (λ r. refl) refl fits.cursor_fits)
          p3 in
      let p1 =
        Passes-append laws fields _ _ s1 s2 m
          (Passes-string laws fields 2 (omega arith) s1 (λ a. record s1 { state = a }) m.state
            (λ r. refl) refl fits.state_fits)
          p2 in
      let p0 =
        Passes-append laws fields _ _ s0 s1 m
          (Passes-string laws fields 1 (omega arith) s0 (λ a. record s0 { session_id = a })
            m.session_id (λ r. refl) refl fits.session_id_fits)
          p1 in
      p0

module _ {rt : Runtime} (laws : Laws rt) (options : ReadUnknown rt.Byte) where
  pub read_field-Settles : AllSettle (read_field rt options)
  unfolding read_field
  read_field-Settles n wt m r =
      switch-Settles (length r.left) n (cases rt options m r)
        (default_case rt options type_name (λ us. record m { unknown = us }) n wt m.unknown r)
        (
          assign-Settles rt.get_string _ r laws.string-Consumes,
          (
            assign-Settles rt.get_string _ r laws.string-Consumes,
            (assign-Settles rt.get_int32 _ r laws.int32-Consumes, tt),
          ),
        )
        (unknown-Settles laws options type_name n wt m.unknown (λ us. record m { unknown = us }) r)
