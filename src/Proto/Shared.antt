-- ===== src/Proto/Shared.antt =====
-- The names that the modules of the messages share.
pub use kprobe.Base.{
  ℕ, ◌<◌, String, Bool, true, false, Option, none, some, List, [], ◌∷◌, ◌++◌, length, contains, All,
  All-map, if◌then◌else◌, if_both, ◌==◌, nat_key, string_key, ◌≡◌, refl, arith,
}
pub use kprobe.Proto.Runtime.{
  Runtime, Laws, ℤ, is_zero_int, WireType, UnknownField, ReadUnknown, WriteUnknown, Carried,
}
pub use kprobe.Proto.Reader.{
  Result, ok, ◌>>=◌, Reader, Fields, assign, nested, default_case, switch, in_order, put_scalar,
  put_optional, put_repeated,
}
unfoldable pub use kprobe.Proto.Reader.{read_unknown, write_unknown, read_to_end}
pub use kprobe.Proto.Segments.{
  Passes, Passes-append, Passes-optional, Passes-repeated, Passes-read_to_end,
}
pub use kprobe.Proto.Unknowns.{Passes-unknown, switch-foreign}
pub use kprobe.Proto.Scalars.{
  RoundTrips, Passes-string, Passes-uint32, Passes-uint64, Passes-int32, Passes-int64,
  Passes-double,
}
pub use kprobe.Proto.Settles.{
  Settles, AllSettle, assign-Settles, nested-Settles, switch-Settles, unknown-Settles,
  read_to_end-Settles,
}
