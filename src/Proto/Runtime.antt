-- ===== src/Proto/Runtime.antt =====
-- What console/src/generated/kprobe.ts uses of `@protobuf-ts/runtime`, which is not in the
-- repository: the byte formats of `IBinaryWriter` and `IBinaryReader` and the handler of unknown
-- fields, as parameters, with their documented behaviour as named laws.
-- A `put` gives the bytes that a call of the writer appends; a `get` reads a value off the front of
-- the bytes that are left, and `none` of it is the exception of the reader. The
-- exception that the writer throws for a number outside its type is not modelled.
use kprobe.Base.{
  ℕ, ◌≤◌, ◌<◌, String, Bool, ◌≡◌, Option, some, List, [], ◌∷◌, ◌++◌, length, ◌==◌, nat_key, false,
  contains,
}

-- A `bigint` or a signed 32-bit number.
pub data ℤ : Type 0 where
  pos : ℕ → ℤ
  negsuc : ℕ → ℤ

-- `value !== 0` and `value !== 0n`, negated.
abbrev pub is_zero_int : ℤ → Bool
is_zero_int (pos n) = n == 0
is_zero_int (negsuc n) = false

pub data WireType : Type 0 where
  varint : WireType
  bit64 : WireType
  length_delimited : WireType
  start_group : WireType
  end_group : WireType
  bit32 : WireType

pub record UnknownField (Byte : Type 0) : Type 0 where
  pub field_no : ℕ
  pub wire_type : WireType
  pub content : List Byte

abbrev pub Get : Type 0 → Type 0 → Type 0
Get Byte A = List Byte → Option (A × List Byte)

-- A handler that is called with the type's name, the unknown fields so far, and the new one.
abbrev pub OnRead : Type 0 → Type 0
OnRead Byte =
    String → List (UnknownField Byte) → ℕ → WireType → List Byte → List (UnknownField Byte)

abbrev pub OnWrite : Type 0 → Type 0
OnWrite Byte = String → List (UnknownField Byte) → List Byte

pub record Runtime : Type 1 where
  pub Byte : Type 0
  pub Double : Type 0
  pub zero_double : Double
  pub is_zero : Double → Bool
  pub put_tag : ℕ → WireType → List Byte
  pub put_string : String → List Byte
  pub put_uint32 : ℕ → List Byte
  pub put_uint64 : ℕ → List Byte
  pub put_int32 : ℤ → List Byte
  pub put_int64 : ℤ → List Byte
  pub put_double : Double → List Byte
  pub join : List Byte → List Byte
  pub get_tag : Get Byte (ℕ × WireType)
  pub get_string : Get Byte String
  pub get_uint32 : Get Byte ℕ
  pub get_uint64 : Get Byte ℕ
  pub get_int32 : Get Byte ℤ
  pub get_int64 : Get Byte ℤ
  pub get_double : Get Byte Double
  pub skip : WireType → Get Byte (List Byte)
  pub on_read : OnRead Byte
  pub on_write : OnWrite Byte

-- The options of the two directions.
pub data ReadUnknown (Byte : Type 0) : Type 0 where
  reject : ReadUnknown Byte
  ignore : ReadUnknown Byte
  keep : ReadUnknown Byte
  custom : OnRead Byte → ReadUnknown Byte

pub data WriteUnknown (Byte : Type 0) : Type 0 where
  omit : WriteUnknown Byte
  include : WriteUnknown Byte
  custom : OnWrite Byte → WriteUnknown Byte

-- What a `put` writes, the `get` beside it reads back, whatever follows.
abbrev pub Reads : {Byte A : Type 0} → Get Byte A → List Byte → A → Type 0
Reads {Byte} get bytes a = (rest : List Byte) → get (bytes ++ rest) ≡ some (a, rest)

-- A `get` never leaves more than it found.
abbrev pub Consumes : {Byte A : Type 0} → Get Byte A → Type 0
Consumes {Byte} {A} get =
    (bytes : List Byte) (a : A) (rest : List Byte)
    → get bytes ≡ some (a, rest)
    → length rest ≤ length bytes

-- `writer.tag(no, wireType).raw(data)` for each unknown field.
abbrev pub written : (rt : Runtime) → List (UnknownField rt.Byte) → List rt.Byte
written rt [] = []
written rt (u ∷ us) = (rt.put_tag u.field_no u.wire_type ++ u.content) ++ written rt us

-- The numbers that a field may have; the reader refuses the tag of any other.
abbrev pub IsFieldNo : ℕ → Type 0
IsFieldNo n = (0 < n) × (n < 536_870_912)

-- The documented behaviour of the library on what the format can carry: `IsText` the texts that
-- UTF-8 carries in a field, `IsInt32` and `IsInt64` the ranges of the signed types.
pub record Laws (rt : Runtime) : Type 1 where
  pub IsText : String → Type 0
  pub IsInt32 : ℤ → Type 0
  pub IsInt64 : ℤ → Type 0
  pub tag_lem :
      (field_no : ℕ) (wt : WireType)
      → IsFieldNo field_no
      → Reads rt.get_tag (rt.put_tag field_no wt) (field_no, wt)
  pub string_lem : (s : String) → IsText s → Reads rt.get_string (rt.put_string s) s
  pub uint32_lem : (n : ℕ) → n < 4_294_967_296 → Reads rt.get_uint32 (rt.put_uint32 n) n
  pub uint64_lem :
      (n : ℕ) → n < 18_446_744_073_709_551_616 → Reads rt.get_uint64 (rt.put_uint64 n) n
  pub int32_lem : (z : ℤ) → IsInt32 z → Reads rt.get_int32 (rt.put_int32 z) z
  pub int64_lem : (z : ℤ) → IsInt64 z → Reads rt.get_int64 (rt.put_int64 z) z
  pub double_lem : (d : rt.Double) → Reads rt.get_double (rt.put_double d) d
  pub join_lem :
      (chunk rest : List rt.Byte)
      → length chunk < 4_294_967_296
      → rt.get_uint32 (rt.join chunk ++ rest) ≡ some (length chunk, chunk ++ rest)
  pub on_read_lem :
      (name : String) (us : List (UnknownField rt.Byte)) (n : ℕ) (wt : WireType) (d : List rt.Byte)
      → rt.on_read name us n wt d ≡ us ++ record { field_no = n; wire_type = wt; content = d } ∷ []
  pub on_write_lem :
      (name : String) (us : List (UnknownField rt.Byte)) → rt.on_write name us ≡ written rt us
  pub tag-Consumes :
      (bytes : List rt.Byte) (tag : ℕ × WireType) (rest : List rt.Byte)
      → rt.get_tag bytes ≡ some (tag, rest)
      → length rest < length bytes
  pub string-Consumes : Consumes rt.get_string
  pub uint32-Consumes : Consumes rt.get_uint32
  pub uint64-Consumes : Consumes rt.get_uint64
  pub int32-Consumes : Consumes rt.get_int32
  pub int64-Consumes : Consumes rt.get_int64
  pub double-Consumes : Consumes rt.get_double
  pub skip-Consumes : (wt : WireType) → Consumes (rt.skip wt)

-- The unknown fields come back: they are written and kept, each of them has a number that the
-- message does not know and a content that `skip` takes whole; or there are none, and no handler of
-- the caller's writes.
abbrev pub AllForeign : (rt : Runtime) → List ℕ → List (UnknownField rt.Byte) → Type 0
AllForeign rt known [] = Unit {0}
AllForeign rt known (u ∷ us) =
    IsFieldNo u.field_no
    × (contains known u.field_no ≡ false)
    × Reads (rt.skip u.wire_type) u.content u.content
    × AllForeign rt known us

abbrev pub Carried :
    (rt : Runtime)
    → List ℕ
    → ReadUnknown rt.Byte
    → WriteUnknown rt.Byte
    → List (UnknownField rt.Byte)
    → Type 0
Carried rt known ReadUnknown.keep WriteUnknown.include us = AllForeign rt known us
Carried rt known r (WriteUnknown.custom f) us = ⊥
Carried rt known r w us = us ≡ []
