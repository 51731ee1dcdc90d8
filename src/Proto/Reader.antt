-- ===== src/Proto/Reader.antt =====
-- The part that the `internalBinaryRead` and `internalBinaryWrite` of every class in
-- console/src/generated/kprobe.ts have in common: the loop over the fields up to the end of the
-- message, the default case of the `switch`, and the writing of the unknown fields.
-- A reader is its position and the bytes that are left; an exception is an `error`.
use kprobe.Base.{
  ℕ, zero, suc, ◌+◌, ◌-◌, String, Bool, true, false, Option, none, some, List, [], ◌∷◌, ◌++◌,
  length, ltb, ◌==◌, nat_key, if◌then◌else◌,
}
use kprobe.Proto.Runtime.{Runtime, WireType, UnknownField, Get, ReadUnknown, WriteUnknown}

pub data ReadError : Type 0 where
  -- an exception of the reader: the end of the bytes, an illegal tag or wire type
  malformed : ReadError
  -- `Unknown field ${fieldNo} (wire type ${wireType}) for ${this.typeName}`
  unknown_field : ℕ → WireType → String → ReadError

pub data Result {ℓ} (A : Type ℓ) : Type ℓ where
  ok : A → Result A
  error : ReadError → Result A
  stuck : Result A

infixl 5 ◌>>=◌
abbrev pub ◌>>=◌ {ℓ κ} : {A : Type ℓ} {B : Type κ} → Result A → (A → Result B) → Result B
ok a >>= f = f a
error e >>= f = error e
stuck >>= f = stuck

pub record Reader (Byte : Type 0) : Type 0 where
  pub at : ℕ
  pub left : List Byte

-- One call of the reader: the position advances by what was read.
abbrev pub call : {Byte A : Type 0} → Get Byte A → Reader Byte → Result (A × Reader Byte)
call get r = elim (get r.left) [
  | none ↦ error malformed
  | some (a, rest) ↦ ok (a, record { at = r.at + (length r.left - length rest); left = rest })
]

-- `message.field = reader.type()`
abbrev pub assign :
    {Byte A M : Type 0} → Get Byte A → (A → M) → Reader Byte → Result (M × Reader Byte)
assign get set r = do (a, r') ← call get r; ok (set a, r')

-- `switch (fieldNo)` with a `break` in every case.
abbrev pub switch : {A : Type 0} → ℕ → List (ℕ × A) → A → A
switch n [] default = default
switch n ((k, a) ∷ cases) default = let rest = switch n cases default in if n == k then a else rest

-- What the statements of `internalBinaryWrite` append, one after the other.
abbrev pub in_order : {Byte : Type 0} → List (List Byte) → List Byte → List Byte
in_order [] last = last
in_order (s ∷ segments) last = s ++ in_order segments last

-- The body of the `switch` on the field's number.
abbrev pub Fields : Type 0 → Type 0 → Type 0
Fields Byte M = ℕ → WireType → M → Reader Byte → Result (M × Reader Byte)

module _ (rt : Runtime) where
  open rt use {Byte, get_tag, get_uint32, put_tag, join, skip, on_read, on_write}

  -- The default case: the option's value decides; `this.typeName` is the name.
  unfoldable pub read_unknown :
      ReadUnknown Byte
      → String
      → ℕ
      → WireType
      → List (UnknownField Byte)
      → Reader Byte
      → Result (List (UnknownField Byte) × Reader Byte)
  read_unknown ReadUnknown.reject name n wt us r = error (unknown_field n wt name)
  read_unknown ReadUnknown.ignore name n wt us r = do (d, r') ← call (skip wt) r; ok (us, r')
  read_unknown ReadUnknown.keep name n wt us r = do
    (d, r') ← call (skip wt) r
    ok (on_read name us n wt d, r')
  read_unknown (ReadUnknown.custom f) name n wt us r = do
    (d, r') ← call (skip wt) r
    ok (f name us n wt d, r')

  -- The handler works on the message itself, which is built again by `set`.
  abbrev pub default_case :
      {M : Type 0}
      → ReadUnknown Byte
      → String
      → (List (UnknownField Byte) → M)
      → ℕ
      → WireType
      → List (UnknownField Byte)
      → Reader Byte
      → Result (M × Reader Byte)
  default_case options name set n wt us r = do
    (us', r') ← read_unknown options name n wt us r
    ok (set us', r')

  unfoldable pub write_unknown : WriteUnknown Byte → String → List (UnknownField Byte) → List Byte
  write_unknown WriteUnknown.omit name us = []
  write_unknown WriteUnknown.include name us = on_write name us
  write_unknown (WriteUnknown.custom f) name us = f name us

  -- `while (reader.pos < end)`, on fuel.
  unfoldable pub read_loop :
      {M : Type 0} → ℕ → ℕ → Fields Byte M → M → Reader Byte → Result (M × Reader Byte)
  read_loop zero end fields m r = if ltb r.at end then stuck else ok (m, r)
  read_loop (suc fuel) end fields m r = elim (ltb r.at end) [
    | false ↦ ok (m, r)
    | true ↦ do
      (tag, r1) ← call get_tag r
      (m', r2) ← fields tag.0 tag.1 m r1
      read_loop fuel end fields m' r2
  ]

  -- `end = reader.pos + length` and the loop: each round reads a tag, so the bytes left bound the
  -- rounds.
  unfoldable pub read_to_end :
      {M : Type 0} → Fields Byte M → ℕ → M → Reader Byte → Result (M × Reader Byte)
  unfolding read_loop
  read_to_end fields length_ m r = read_loop (suc (length r.left)) (r.at + length_) fields m r

  -- `message.field = Type.internalBinaryRead(reader, reader.uint32(), ...)`, or a `push` of it.
  abbrev pub nested :
      {A M : Type 0}
      → (ℕ → Reader Byte → Result (A × Reader Byte))
      → (A → M)
      → Reader Byte
      → Result (M × Reader Byte)
  nested read set r = do (size, r1) ← call get_uint32 r; (a, r2) ← read size r1; ok (set a, r2)

  -- `Type.internalBinaryWrite(message, writer.tag(n, WireType.LengthDelimited).fork(), ...).join()`
  abbrev pub put_message : ℕ → List Byte → List Byte
  put_message n chunk = put_tag n WireType.length_delimited ++ join chunk

  -- `if (message.field)`
  abbrev pub put_optional : {A : Type 0} → ℕ → (A → List Byte) → Option A → List Byte
  put_optional n write none = []
  put_optional n write (some a) = put_message n (write a)

  -- `for (let i = 0; i < message.field.length; i++)`
  abbrev pub put_repeated : {A : Type 0} → ℕ → (A → List Byte) → List A → List Byte
  put_repeated n write [] = []
  put_repeated n write (a ∷ rest) = put_message n (write a) ++ put_repeated n write rest

  -- `if (message.field !== default) writer.tag(n, wt).type(message.field)`
  abbrev pub put_scalar : Bool → ℕ → WireType → List Byte → List Byte
  put_scalar true n wt content = []
  put_scalar false n wt content = put_tag n wt ++ content
