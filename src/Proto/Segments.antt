-- ===== src/Proto/Segments.antt =====
-- What a stretch of written bytes does to the loop of `internalBinaryRead` when it is read back.
use kprobe.Base.{
  ℕ, zero, suc, ◌+◌, ◌-◌, ◌≤◌, ◌<◌, Bool, true, false, Option, none, some, List, [], ◌∷◌, ◌++◌,
  length, length-append, All, nat_key, ltb, ◌≡◌, refl, sym, ap, subst, ◌∙◌, arith,
}
use mathlib.Core.List.{append_assoc, append-nil}
use kprobe.Proto.Runtime.{IsFieldNo, Runtime, Laws, WireType, Get, Reads}
use kprobe.Proto.Reader.{
  Result, ok, ◌>>=◌, Reader, call, assign, Fields, read_loop, read_to_end, nested, put_scalar,
  put_message, put_optional, put_repeated,
}

abbrev pub reader : {Byte : Type 0} → ℕ → List Byte → Reader Byte
reader p bytes = record { at = p; left = bytes }

call_lem :
    {Byte A : Type 0} (get : Get Byte A) (bytes : List Byte) (a : A) (p : ℕ) (rest : List Byte)
    → get bytes ≡ some (a, rest)
    → call get (reader p bytes) ≡ ok (a, reader (p + (length bytes - length rest)) rest)
call_lem get bytes a p rest h = rw (h, call) refl

pub call-put :
    {Byte A : Type 0} (get : Get Byte A) (bytes : List Byte) (a : A) (p : ℕ) (rest : List Byte)
    → get (bytes ++ rest) ≡ some (a, rest)
    → call get (reader p (bytes ++ rest)) ≡ ok (a, reader (p + length bytes) rest)
call-put get bytes a p rest h =
    rw (h, call) (ap (λ n. ok (a, reader n rest)) (omega (arith, length-append bytes rest)))

module _ {rt : Runtime} (laws : Laws rt) where
  open rt use {Byte, put_tag, get_tag, get_uint32, join, skip, on_write}
  open laws use {tag_lem, tag-Consumes, join_lem, uint32-Consumes, on_read_lem, on_write_lem}

  tag_pos : (n : ℕ) (wt : WireType) → IsFieldNo n → 0 < length (put_tag n wt)
  tag_pos n wt valid =
      let h = tag-Consumes _ _ _ (tag_lem n wt valid []) in
      omega (arith, length-append (put_tag n wt) [])

  module _ {M : Type 0} where
    -- Reading the bytes takes the loop from the one message to the other, and some fuel.
    abbrev pub Passes : Fields Byte M → List Byte → M → M → Type 0
    Passes fields bytes m m' =
        (fuel end p : ℕ) (rest : List Byte)
        → length (bytes ++ rest) < fuel
        → p + length bytes ≤ end
        → (fuel' : ℕ) × (length rest < fuel')
          × (read_loop rt fuel end fields m (reader p (bytes ++ rest))
              ≡ read_loop rt fuel' end fields m' (reader (p + length bytes) rest))

    pub Passes-nil : (fields : Fields Byte M) (m : M) → Passes fields [] m m
    Passes-nil fields m fuel end p rest h k =
        (fuel, h, ap (λ n. read_loop rt fuel end fields m (reader n rest)) (omega arith))

    pub Passes-append :
        (fields : Fields Byte M) (s t : List Byte) (m1 m2 m3 : M)
        → Passes fields s m1 m2
        → Passes fields t m2 m3
        → Passes fields (s ++ t) m1 m3
    Passes-append fields s t m1 m2 m3 first second fuel end p rest h k =
        let assoc = append_assoc s t rest in
        let size = length-append s t in
        let (f1, h1, e1) =
          first fuel end p (t ++ rest) (subst (λ b. length b < fuel) assoc h) (omega arith) in
        let (f2, h2, e2) = second f1 end (p + length s) rest h1 (omega arith) in
        (
          f2,
          h2,
          ap (λ b. read_loop rt fuel end fields m1 (reader p b)) assoc
              ∙ e1
              ∙ e2
              ∙ ap (λ n. read_loop rt f2 end fields m3 (reader n rest)) (omega arith),
        )

    pub round :
        (fields : Fields Byte M) (fuel end : ℕ) (m : M) (r : Reader Byte)
        → ltb r.at end ≡ true
        → read_loop rt (suc fuel) end fields m r ≡ (
            call get_tag r >>= λ (tag, r1).
            fields tag.0 tag.1 m r1 >>= λ (m', r2). read_loop rt fuel end fields m' r2)
    unfolding read_loop
    round fields fuel end m r more = rw (more, read_loop)

    -- The bytes of one field: its tag, and what the case of the `switch` reads after it.
    pub Passes-field :
        (fields : Fields Byte M) (n : ℕ) (valid : IsFieldNo n) (wt : WireType) (content : List Byte)
        (m m' : M)
        → ((p : ℕ) (rest : List Byte)
            → fields n wt m (reader p (content ++ rest))
              ≡ ok (m', reader (p + length content) rest))
        → Passes fields (put_tag n wt ++ content) m m'
    Passes-field fields n valid wt content m m' reads zero end p rest h k = absurd (omega arith)
    Passes-field fields n valid wt content m m' reads (suc fuel) end p rest h k =
        (fuel, omega (arith, size, pos_, length-append (tag ++ content) rest), path)
      where
        tag : List Byte
        tag = put_tag n wt

        size : length (tag ++ content) ≡ length tag + length content
        size = length-append tag content

        pos_ : 0 < length tag
        pos_ = tag_pos n wt valid

        more : ltb p end ≡ true
        more = ground (arith, size, pos_, k)

        path :
            read_loop rt (suc fuel) end fields m (reader p ((tag ++ content) ++ rest))
            ≡ read_loop rt fuel end fields m' (reader (p + length (tag ++ content)) rest)
        path =
            ap (λ b. read_loop rt (suc fuel) end fields m (reader p b))
              (append_assoc tag content rest)
            ∙ round fields fuel end m (reader p (tag ++ (content ++ rest))) more
            ∙ rw
                (call-put get_tag tag (n, wt) p (content ++ rest)
                  (tag_lem n wt valid (content ++ rest)))
                (rw (reads (p + length tag) rest)
                  (ap (λ q. read_loop rt fuel end fields m' (reader q rest)) (omega (arith, size))))

    pub Passes-scalar :
        {A : Type 0} (fields : Fields Byte M) (n : ℕ) (valid : IsFieldNo n) (wt : WireType) (m : M)
        (set : A → M) (get : Get Byte A) (default : A) (content : List Byte) (a : A)
        (skipped : Bool)
        → ((r : Reader Byte) → fields n wt m r ≡ assign get set r)
        → m ≡ set default
        → (skipped ≡ true → a ≡ default)
        → Reads get content a
        → Passes fields (put_scalar rt skipped n wt content) m (set a)
    Passes-scalar fields n valid wt m set get default content a true case start same reads =
        subst (λ x. Passes fields [] m x) (start ∙ ap set (sym (same refl))) (Passes-nil fields m)
    Passes-scalar fields n valid wt m set get default content a false case start same reads =
        Passes-field fields n valid wt content m (set a) λ p rest.
          case (reader p (content ++ rest)) ∙ rw (call-put get content a p rest (reads rest)) refl

    Passes-message :
        {A : Type 0} (fields : Fields Byte M) (n : ℕ) (valid : IsFieldNo n) (m : M) (set : A → M)
        (read : ℕ → Reader Byte → Result (A × Reader Byte)) (chunk : List Byte) (a : A)
        → ((r : Reader Byte) → fields n WireType.length_delimited m r ≡ nested rt read set r)
        → length chunk < 4_294_967_296
        → ((p : ℕ) (rest : List Byte)
            → read (length chunk) (reader p (chunk ++ rest))
              ≡ ok (a, reader (p + length chunk) rest))
        → Passes fields (put_message rt n chunk) m (set a)
    Passes-message fields n valid m set read chunk a case small reads =
        Passes-field fields n valid WireType.length_delimited (join chunk) m (set a) λ p rest.
          case (reader p (join chunk ++ rest))
          ∙ rw
              (call_lem get_uint32 (join chunk ++ rest) (length chunk) p (chunk ++ rest)
                (join_lem chunk rest small))
              (rw (reads (p + (length (join chunk ++ rest) - length (chunk ++ rest))) rest) (
                ap (λ q. ok (set a, reader q rest))
                  (omega (
                    arith,
                    length-append (join chunk) rest,
                    length-append chunk rest,
                    length-append (join chunk) [],
                    length-append chunk [],
                    uint32-Consumes _ _ _ (join_lem chunk [] small),
                  ))))

    -- `if (message.field)`
    pub Passes-optional :
        {A : Type 0} (fields : Fields Byte M) (n : ℕ) (valid : IsFieldNo n) (m : M)
        (set : Option A → M) (write : A → List Byte)
        (read : ℕ → Reader Byte → Result (A × Reader Byte)) (o : Option A)
        → m ≡ set none
        → ((r : Reader Byte)
            → fields n WireType.length_delimited m r ≡ nested rt read (λ a. set (some a)) r)
        → ((a : A)
            → o ≡ some a
            → (length (write a) < 4_294_967_296)
              × ((p : ℕ) (rest : List Byte)
                  → read (length (write a)) (reader p (write a ++ rest))
                    ≡ ok (a, reader (p + length (write a)) rest)))
        → Passes fields (put_optional rt n write o) m (set o)
    Passes-optional fields n valid m set write read none start case good =
        subst (λ x. Passes fields [] m x) start (Passes-nil fields m)
    Passes-optional fields n valid m set write read (some a) start case good =
        Passes-message fields n valid m (λ x. set (some x)) read (write a) a case (good a refl).0
          (good a refl).1

    -- The loop of a repeated field pushes its elements in order.
    pub Passes-repeated :
        {A : Type 0} (fields : Fields Byte M) (n : ℕ) (valid : IsFieldNo n) (set : List A → M)
        (write : A → List Byte) (read : ℕ → Reader Byte → Result (A × Reader Byte)) (xs ys : List A)
        → ((zs : List A) (r : Reader Byte)
            → fields n WireType.length_delimited (set zs) r
              ≡ nested rt read (λ a. set (zs ++ a ∷ [])) r)
        → All
            (λ a.
              (length (write a) < 4_294_967_296)
              × ((p : ℕ) (rest : List Byte)
                  → read (length (write a)) (reader p (write a ++ rest))
                    ≡ ok (a, reader (p + length (write a)) rest)))
            ys
        → Passes fields (put_repeated rt n write ys) (set xs) (set (xs ++ ys))
    Passes-repeated fields n valid set write read xs [] case good =
        subst (λ zs. Passes fields [] (set xs) (set zs)) (sym (append-nil xs))
          (Passes-nil fields (set xs))
    Passes-repeated fields n valid set write read xs (y ∷ ys) case good =
        Passes-append fields (put_message rt n (write y)) (put_repeated rt n write ys) (set xs)
          (set (xs ++ y ∷ [])) (set (xs ++ y ∷ ys))
          (Passes-message fields n valid (set xs) (λ a. set (xs ++ a ∷ [])) read (write y) y
            (case xs) good.0.0 good.0.1)
          (subst (λ zs. Passes fields (put_repeated rt n write ys) (set (xs ++ y ∷ [])) (set zs))
            (append_assoc xs (y ∷ []) ys)
            (Passes-repeated fields n valid set write read (xs ++ y ∷ []) ys case good.1))

    done :
        (fields : Fields Byte M) (fuel end : ℕ) (m : M) (r : Reader Byte)
        → ltb r.at end ≡ false
        → read_loop rt fuel end fields m r ≡ ok (m, r)
    unfolding read_loop
    done fields zero end m r h = rw h
    done fields (suc fuel) end m r h = rw (h, read_loop)

    -- The loop ends exactly where the written bytes end, whatever follows them.
    pub Passes-read_to_end :
        (fields : Fields Byte M) (bytes : List Byte) (m m' : M)
        → Passes fields bytes m m'
        → (p : ℕ) (rest : List Byte)
        → read_to_end rt fields (length bytes) m (reader p (bytes ++ rest))
          ≡ ok (m', reader (p + length bytes) rest)
    unfolding read_to_end
    Passes-read_to_end fields bytes m m' pass p rest =
        let (f, h, e) =
          pass (suc (length (bytes ++ rest))) (p + length bytes) p rest (omega arith)
            (omega arith) in
        e ∙ done fields f (p + length bytes) m' (reader (p + length bytes) rest) (ground arith)
