-- ===== src/Proto/Scalars.antt =====
-- The segments of scalar fields, one lemma for each type of kprobe.proto; and what it means for a
-- message to come back whole.
use kprobe.Base.{
  ℕ, ◌+◌, ◌<◌, String, true, List, ◌++◌, length, ◌==◌, nat_key, string_key, nat_eq_iff, ◌≡◌, arith,
}
use text.Mathlib.TextEquality.{eq_iff}
use kprobe.Proto.Runtime.{IsFieldNo, Runtime, Laws, ℤ, is_zero_int, WireType}
use kprobe.Proto.Reader.{Result, ok, Reader, assign, Fields, put_scalar}
use kprobe.Proto.Segments.{reader, Passes, Passes-scalar}

is_zero_int_eq : (z : ℤ) → is_zero_int z ≡ true → z ≡ ℤ.pos 0
is_zero_int_eq (ℤ.pos n) h = ground arith
is_zero_int_eq (ℤ.negsuc n) h = cc

-- Reading what `write` gives for a message, on to a fresh message, gives that message, and leaves
-- what follows it.
abbrev pub RoundTrips :
    {Byte M : Type 0}
    → (ℕ → M → Reader Byte → Result (M × Reader Byte))
    → (M → List Byte)
    → M
    → M
    → Type 0
RoundTrips {Byte} read write fresh m =
    (p : ℕ) (rest : List Byte)
    → read (length (write m)) fresh (reader p (write m ++ rest))
      ≡ ok (m, reader (p + length (write m)) rest)

-- A nested message comes back, and its length fits the prefix.
abbrev pub FitsInside :
    {Byte M : Type 0}
    → (ℕ → M → Reader Byte → Result (M × Reader Byte))
    → (M → List Byte)
    → M
    → M
    → Type 0
FitsInside read write fresh m = (length (write m) < 4_294_967_296) × RoundTrips read write fresh m

module _ {rt : Runtime} (laws : Laws rt) {M : Type 0} (fields : Fields rt.Byte M) (n : ℕ)
    (valid : IsFieldNo n) where
  open rt use {
    Byte, Double, is_zero, zero_double, put_string, get_string, put_uint32, get_uint32, put_uint64,
    get_uint64, put_int32, get_int32, put_int64, get_int64, put_double, get_double,
  }
  open laws use {IsText, IsInt32, IsInt64}

  pub Passes-string :
      (m : M) (set : String → M) (v : String)
      → ((r : Reader Byte) → fields n WireType.length_delimited m r ≡ assign get_string set r)
      → m ≡ set ""
      → (IsText v)
      → Passes laws fields
          (put_scalar rt (v == "") n WireType.length_delimited (put_string v))
          m
          (set v)
  Passes-string m set v case start fits =
      Passes-scalar laws fields n valid WireType.length_delimited m set get_string "" (put_string v)
        v (v == "") case start ((eq_iff v "").0) (laws.string_lem v fits)

  pub Passes-uint32 :
      (m : M) (set : ℕ → M) (v : ℕ)
      → ((r : Reader Byte) → fields n WireType.varint m r ≡ assign get_uint32 set r)
      → m ≡ set 0
      → (v < 4_294_967_296)
      → Passes laws fields (put_scalar rt (v == 0) n WireType.varint (put_uint32 v)) m (set v)
  Passes-uint32 m set v case start fits =
      Passes-scalar laws fields n valid WireType.varint m set get_uint32 0 (put_uint32 v) v (v == 0)
        case start ((nat_eq_iff v 0).0) (laws.uint32_lem v fits)

  pub Passes-uint64 :
      (m : M) (set : ℕ → M) (v : ℕ)
      → ((r : Reader Byte) → fields n WireType.varint m r ≡ assign get_uint64 set r)
      → m ≡ set 0
      → (v < 18_446_744_073_709_551_616)
      → Passes laws fields (put_scalar rt (v == 0) n WireType.varint (put_uint64 v)) m (set v)
  Passes-uint64 m set v case start fits =
      Passes-scalar laws fields n valid WireType.varint m set get_uint64 0 (put_uint64 v) v (v == 0)
        case start ((nat_eq_iff v 0).0) (laws.uint64_lem v fits)

  pub Passes-int32 :
      (m : M) (set : ℤ → M) (v : ℤ)
      → ((r : Reader Byte) → fields n WireType.varint m r ≡ assign get_int32 set r)
      → m ≡ set (ℤ.pos 0)
      → (IsInt32 v)
      → Passes laws fields (put_scalar rt (is_zero_int v) n WireType.varint (put_int32 v)) m (set v)
  Passes-int32 m set v case start fits =
      Passes-scalar laws fields n valid WireType.varint m set get_int32 (ℤ.pos 0) (put_int32 v) v
        (is_zero_int v) case start (is_zero_int_eq v) (laws.int32_lem v fits)

  pub Passes-int64 :
      (m : M) (set : ℤ → M) (v : ℤ)
      → ((r : Reader Byte) → fields n WireType.varint m r ≡ assign get_int64 set r)
      → m ≡ set (ℤ.pos 0)
      → (IsInt64 v)
      → Passes laws fields (put_scalar rt (is_zero_int v) n WireType.varint (put_int64 v)) m (set v)
  Passes-int64 m set v case start fits =
      Passes-scalar laws fields n valid WireType.varint m set get_int64 (ℤ.pos 0) (put_int64 v) v
        (is_zero_int v) case start (is_zero_int_eq v) (laws.int64_lem v fits)

  pub Passes-double :
      (m : M) (set : Double → M) (v : Double)
      → ((r : Reader Byte) → fields n WireType.bit64 m r ≡ assign get_double set r)
      → m ≡ set zero_double
      → (is_zero v ≡ true → v ≡ zero_double)
      → Passes laws fields (put_scalar rt (is_zero v) n WireType.bit64 (put_double v)) m (set v)
  Passes-double m set v case start fits =
      Passes-scalar laws fields n valid WireType.bit64 m set get_double zero_double (put_double v) v
        (is_zero v) case start (fits) (laws.double_lem v)
