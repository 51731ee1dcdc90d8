-- ===== src/Proto/Settles.antt =====
-- Reading always comes to an end: with a message or with an exception of the reader, never for want
-- of fuel, and never with more bytes left than there were.
use kprobe.Base.{
  All, [], ◌∷◌, if_both, ◌==◌, nat_key, ℕ, zero, suc, ◌+◌, ◌-◌, ◌≤◌, ◌<◌, String, List, length, ltb,
  Bool-cases, Option-cases, inl, inr, arith,
}
use kprobe.Proto.Runtime.{Runtime, Laws, WireType, UnknownField, Get, Consumes, ReadUnknown}
use kprobe.Proto.Reader.{
  switch, Result, ok, error, stuck, ◌>>=◌, Reader, call, assign, nested, Fields, read_unknown,
  read_loop, read_to_end,
}

abbrev pub Settles : {Byte A : Type 0} → ℕ → Result (A × Reader Byte) → Type 0
Settles n (ok (a, r)) = length r.left ≤ n
Settles n (error e) = Unit {0}
Settles n stuck = ⊥

Settles-bind :
    {Byte A B : Type 0} (n : ℕ) (x : Result (A × Reader Byte))
    (f : A × Reader Byte → Result (B × Reader Byte))
    → Settles n x
    → ((a : A) (r : Reader Byte) → length r.left ≤ n → Settles n (f (a, r)))
    → Settles n (x >>= f)
Settles-bind n (ok (a, r)) f h k = k a r h
Settles-bind n (error e) f h k = tt
Settles-bind n stuck f h k = h

Settles-mono :
    {Byte A : Type 0} (m n : ℕ) (x : Result (A × Reader Byte)) → m ≤ n → Settles m x → Settles n x
Settles-mono m n (ok (a, r)) le h = omega arith
Settles-mono m n (error e) le h = tt
Settles-mono m n stuck le h = h

call-Settles :
    {Byte A : Type 0} (get : Get Byte A) (r : Reader Byte)
    → Consumes get
    → Settles (length r.left) (call get r)
call-Settles get r consumes = elim (Option-cases (get r.left)) [
  | inl e ↦ rw (e, call) tt
  | inr (p, e) ↦ rw (e, call) (consumes r.left p.0 p.1 e)
]

pub assign-Settles :
    {Byte A M : Type 0} (get : Get Byte A) (set : A → M) (r : Reader Byte)
    → Consumes get
    → Settles (length r.left) (assign get set r)
assign-Settles get set r consumes =
    Settles-bind (length r.left) (call get r) (λ (a, r'). ok (set a, r'))
      (call-Settles get r consumes) (λ a r' h. h)

pub switch-Settles :
    {Byte M : Type 0} (n field_no : ℕ) (cases : List (ℕ × Result (M × Reader Byte)))
    (default : Result (M × Reader Byte))
    → All (λ c. Settles n c.1) cases
    → Settles n default
    → Settles n (switch field_no cases default)
switch-Settles n field_no [] default h d = d
switch-Settles n field_no ((k, x) ∷ cases) default (p, h) d =
    if_both (Settles n) (field_no == k) x (switch field_no cases default) (λ _. p)
      (λ _. switch-Settles n field_no cases default h d)

-- The cases of the `switch` settle, for every field and every message so far.
abbrev pub AllSettle : {Byte M : Type 0} → Fields Byte M → Type 0
AllSettle {Byte} {M} fields =
    (n : ℕ) (wt : WireType) (m : M) (r : Reader Byte) → Settles (length r.left) (fields n wt m r)

module _ {rt : Runtime} (laws : Laws rt) where
  open rt use {Byte, get_tag, get_uint32, skip, on_read}
  open laws use {tag-Consumes, uint32-Consumes, skip-Consumes}

  pub nested-Settles :
      {A M : Type 0} (read : ℕ → Reader Byte → Result (A × Reader Byte)) (set : A → M)
      (r : Reader Byte)
      → ((n : ℕ) (r' : Reader Byte) → Settles (length r'.left) (read n r'))
      → Settles (length r.left) (nested rt read set r)
  nested-Settles read set r settles =
      Settles-bind (length r.left) (call get_uint32 r)
        (λ (n, r1). read n r1 >>= λ (a, r2). ok (set a, r2))
        (call-Settles get_uint32 r uint32-Consumes)
        λ n r1 h.
          Settles-bind (length r.left) (read n r1) (λ (a, r2). ok (set a, r2))
            (Settles-mono _ _ (read n r1) h (settles n r1)) (λ a r2 k. k)

  skipped :
      {U M : Type 0} (next : List Byte → U) (set : U → M) (wt : WireType) (r : Reader Byte)
      → Settles
          (length r.left)
          (call (skip wt) r >>= (λ (d, r'). ok (next d, r')) >>= λ (us', r'). ok (set us', r'))
  skipped next set wt r =
      Settles-bind (length r.left) (call (skip wt) r >>= λ (d, r'). ok (next d, r'))
        (λ (us', r'). ok (set us', r'))
        (Settles-bind (length r.left) (call (skip wt) r) (λ (d, r'). ok (next d, r'))
          (call-Settles (skip wt) r (skip-Consumes wt)) (λ d r' h. h))
        (λ us r' h. h)

  pub unknown-Settles :
      {M : Type 0} (options : ReadUnknown Byte) (name : String) (n : ℕ) (wt : WireType)
      (us : List (UnknownField Byte)) (set : List (UnknownField Byte) → M) (r : Reader Byte)
      → Settles
          (length r.left)
          (read_unknown rt options name n wt us r >>= λ (us', r'). ok (set us', r'))
  unfolding read_unknown
  unknown-Settles ReadUnknown.reject name n wt us set r = tt
  unknown-Settles ReadUnknown.ignore name n wt us set r = skipped (λ d. us) set wt r
  unknown-Settles ReadUnknown.keep name n wt us set r =
      skipped (λ d. on_read name us n wt d) set wt r
  unknown-Settles (ReadUnknown.custom f) name n wt us set r =
      skipped (λ d. f name us n wt d) set wt r

  abbrev reader_after : Reader Byte → List Byte → Reader Byte
  reader_after r rest = record { at = r.at + (length r.left - length rest); left = rest }

  round_Settles :
      {M : Type 0} (fields : Fields Byte M)
      → AllSettle fields
      → (fuel end : ℕ) (m : M) (tag : ℕ × WireType) (r : Reader Byte) (n : ℕ) → length r.left < n
      → ((m' : M) (r2 : Reader Byte)
          → length r2.left ≤ length r.left
          → Settles (length r2.left) (read_loop rt fuel end fields m' r2))
      → Settles n (fields tag.0 tag.1 m r >>= λ (m', r2). read_loop rt fuel end fields m' r2)
  round_Settles {M} fields settle fuel end m tag r n lt rec =
      let next = λ (x : M × Reader Byte). read_loop rt fuel end fields x.0 x.1 in
      Settles-mono (length r.left) n (fields tag.0 tag.1 m r >>= next) (omega arith) (
        Settles-bind (length r.left) (fields tag.0 tag.1 m r) next (settle tag.0 tag.1 m r)
          (λ m' r2 le.
            Settles-mono (length r2.left) (length r.left) (next (m', r2)) le (rec m' r2 le)))

  loop-Settles :
      {M : Type 0} (fields : Fields Byte M)
      → AllSettle fields
      → (fuel end : ℕ) (m : M) (r : Reader Byte) → length r.left < fuel
      → Settles (length r.left) (read_loop rt fuel end fields m r)
  unfolding read_loop
  loop-Settles fields settle zero end m r h = absurd (omega arith)
  loop-Settles fields settle (suc fuel) end m r h = elim (Bool-cases (ltb r.at end)) [
    | inl more ↦
        rw (more, read_loop)
          (elim (Option-cases (get_tag r.left)) [
            | inl e ↦ rw (e, call) tt
            | inr (p, e) ↦
                rw (e, call)
                  (round_Settles fields settle fuel end m p.0 (reader_after r p.1) (length r.left)
                    (tag-Consumes r.left p.0 p.1 e)
                    (λ m' r2 le.
                      loop-Settles fields settle fuel end m' r2
                        (omega (arith, le, h, tag-Consumes r.left p.0 p.1 e))))
          ])
    | inr done ↦ rw (done, read_loop) (omega arith)
  ]

  -- The fuel of `read_to_end` is enough for every input, of whatever length it claims to be.
  pub read_to_end-Settles :
      {M : Type 0} (fields : Fields Byte M)
      → AllSettle fields
      → (size : ℕ) (m : M) (r : Reader Byte)
      → Settles (length r.left) (read_to_end rt fields size m r)
  unfolding read_to_end
  read_to_end-Settles fields settle size m r =
      loop-Settles fields settle (suc (length r.left)) (r.at + size) m r (omega arith)
