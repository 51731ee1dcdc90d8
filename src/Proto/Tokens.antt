-- ===== src/Proto/Tokens.antt =====
-- A runtime whose bytes are whole tokens (a tag, a text, a number or a length), for the tests.
use kprobe.Base.{
  ℕ, ◌<◌, String, none, some, List, [], ◌∷◌, ◌++◌, length, ◌==◌, nat_key, ◌≡◌, refl, arith,
}
use kprobe.Proto.Runtime.{
  Runtime, Laws, ℤ, WireType, UnknownField, Get, OnRead, OnWrite, written, Consumes,
}

pub data Token : Type 0 where
  tag : ℕ → WireType → Token
  text : String → Token
  numeral : ℕ → Token
  signed : ℤ → Token

abbrev pub get_tag : Get Token (ℕ × WireType)
get_tag (tag n wt ∷ rest) = some ((n, wt), rest)
get_tag ts = none

abbrev pub get_text : Get Token String
get_text (text s ∷ rest) = some (s, rest)
get_text ts = none

abbrev pub get_number : Get Token ℕ
get_number (numeral n ∷ rest) = some (n, rest)
get_number ts = none

abbrev pub get_signed : Get Token ℤ
get_signed (signed z ∷ rest) = some (z, rest)
get_signed ts = none

abbrev pub take_token : Get Token (List Token)
take_token [] = none
take_token (t ∷ rest) = some (t ∷ [], rest)

abbrev pub attach_token : OnRead Token
attach_token name us n wt d = us ++ record { field_no = n; wire_type = wt; content = d } ∷ []

abbrev pub write_tokens : OnWrite Token
write_tokens name [] = []
write_tokens name (u ∷ us) = (tag u.field_no u.wire_type ∷ u.content) ++ write_tokens name us

abbrev pub tokens : Runtime
tokens = record {
  Byte = Token;
  Double = ℕ;
  zero_double = 0;
  is_zero = λ d. d == 0;
  put_tag = λ n wt. tag n wt ∷ [];
  put_string = λ s. text s ∷ [];
  put_uint32 = λ n. numeral n ∷ [];
  put_uint64 = λ n. numeral n ∷ [];
  put_int32 = λ z. signed z ∷ [];
  put_int64 = λ z. signed z ∷ [];
  put_double = λ d. numeral d ∷ [];
  join = λ chunk. numeral (length chunk) ∷ chunk;
  get_tag = get_tag;
  get_string = get_text;
  get_uint32 = get_number;
  get_uint64 = get_number;
  get_int32 = get_signed;
  get_int64 = get_signed;
  get_double = get_number;
  skip = λ wt. take_token;
  on_read = attach_token;
  on_write = write_tokens;
}

pub write_tokens_lem :
    (name : String) (us : List (UnknownField Token)) → write_tokens name us ≡ written tokens us
write_tokens_lem name [] = refl
write_tokens_lem name (u ∷ us) = rw (write_tokens_lem name us) refl

pub get_tag-shorter :
    (ts : List Token) (a : ℕ × WireType) (rest : List Token)
    → get_tag ts ≡ some (a, rest)
    → length rest < length ts
get_tag-shorter [] a rest h = cc
get_tag-shorter (tag n wt ∷ ts) a rest h = ground arith
get_tag-shorter (text s ∷ ts) a rest h = cc
get_tag-shorter (numeral n ∷ ts) a rest h = cc
get_tag-shorter (signed z ∷ ts) a rest h = cc

pub get_text-Consumes : Consumes get_text
get_text-Consumes [] a rest h = cc
get_text-Consumes (tag n wt ∷ ts) a rest h = cc
get_text-Consumes (text s ∷ ts) a rest h = ground arith
get_text-Consumes (numeral n ∷ ts) a rest h = cc
get_text-Consumes (signed z ∷ ts) a rest h = cc

pub get_number-Consumes : Consumes get_number
get_number-Consumes [] a rest h = cc
get_number-Consumes (tag n wt ∷ ts) a rest h = cc
get_number-Consumes (text s ∷ ts) a rest h = cc
get_number-Consumes (numeral n ∷ ts) a rest h = ground arith
get_number-Consumes (signed z ∷ ts) a rest h = cc

pub get_signed-Consumes : Consumes get_signed
get_signed-Consumes [] a rest h = cc
get_signed-Consumes (tag n wt ∷ ts) a rest h = cc
get_signed-Consumes (text s ∷ ts) a rest h = cc
get_signed-Consumes (numeral n ∷ ts) a rest h = cc
get_signed-Consumes (signed z ∷ ts) a rest h = ground arith

pub take_token-Consumes : Consumes take_token
take_token-Consumes [] a rest h = cc
take_token-Consumes (t ∷ ts) a rest h = ground arith

abbrev pub token_laws : Laws tokens
token_laws = record {
  IsText = λ s. Unit {0};
  IsInt32 = λ z. Unit {0};
  IsInt64 = λ z. Unit {0};
  tag_lem = λ n wt h rest. refl;
  string_lem = λ s h rest. refl;
  uint32_lem = λ n h rest. refl;
  uint64_lem = λ n h rest. refl;
  int32_lem = λ z h rest. refl;
  int64_lem = λ z h rest. refl;
  double_lem = λ d rest. refl;
  join_lem = λ chunk rest h. refl;
  on_read_lem = λ name us n wt d. refl;
  on_write_lem = write_tokens_lem;
  tag-Consumes = get_tag-shorter;
  string-Consumes = get_text-Consumes;
  uint32-Consumes = get_number-Consumes;
  uint64-Consumes = get_number-Consumes;
  int32-Consumes = get_signed-Consumes;
  int64-Consumes = get_signed-Consumes;
  double-Consumes = get_number-Consumes;
  skip-Consumes = λ wt. take_token-Consumes;
}
