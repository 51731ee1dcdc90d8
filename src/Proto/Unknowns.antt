-- ===== src/Proto/Unknowns.antt =====
-- The segment of the unknown fields: what was attached to a message is written after its fields and
-- attached again when it is read.
use kprobe.Base.{
  arith, refl, ℕ, ◌+◌, String, false, List, [], ◌∷◌, ◌++◌, length, contains, nat_key, ◌≡◌, sym, ap,
  subst, ◌∙◌,
}
use mathlib.Core.List.{append_assoc, append-nil}
use kprobe.Proto.Runtime.{
  Runtime, Laws, WireType, UnknownField, AllForeign, Carried, written, ReadUnknown, WriteUnknown,
}
use kprobe.Proto.Reader.{switch, ok, ◌>>=◌, Reader, Fields, read_unknown, write_unknown}
use kprobe.Proto.Segments.{reader, call-put, Passes, Passes-nil, Passes-append, Passes-field}

abbrev case_numbers : {A : Type 0} → List (ℕ × A) → List ℕ
case_numbers [] = []
case_numbers ((k, a) ∷ cases) = k ∷ case_numbers cases

-- A number that has no case takes the default.
pub switch-foreign :
    {A : Type 0} (n : ℕ) (cases : List (ℕ × A)) (default : A)
    → contains (case_numbers cases) n ≡ false
    → switch n cases default ≡ default
switch-foreign n [] default h = refl
switch-foreign n ((k, a) ∷ cases) default h = ground (arith, switch-foreign n cases default)

module _ {rt : Runtime} (laws : Laws rt) where
  open rt use {Byte, put_tag, skip, on_write}
  open laws use {on_read_lem, on_write_lem}

  module _ {M : Type 0} where
    module _ (fields : Fields Byte M) (set : List (UnknownField Byte) → M) where
      none_left :
          (us : List (UnknownField Byte)) → us ≡ [] → Passes laws fields [] (set []) (set us)
      none_left us e =
          subst (λ ws. Passes laws fields [] (set []) (set ws)) (sym e)
            (Passes-nil laws fields (set []))

      nothing :
          (name : String) (us : List (UnknownField Byte))
          → us ≡ []
          → Passes laws fields (on_write name us) (set []) (set us)
      nothing name us e =
          subst (λ b. Passes laws fields b (set []) (set us))
            (sym (on_write_lem name us ∙ ap (written rt) e)) (none_left us e)

    -- Unknown fields that are written and kept come back in order.
    Passes-foreign :
        (fields : Fields Byte M) (name : String) (known : List ℕ)
        (set : List (UnknownField Byte) → M) (vs us : List (UnknownField Byte))
        → ((n : ℕ) (wt : WireType) (ws : List (UnknownField Byte)) (r : Reader Byte)
            → contains known n ≡ false
            → fields n wt (set ws) r
              ≡ (read_unknown rt ReadUnknown.keep name n wt ws r >>= λ (ws', r'). ok (set ws', r')))
        → AllForeign rt known us
        → Passes laws fields (written rt us) (set vs) (set (vs ++ us))
    unfolding read_unknown
    Passes-foreign fields name known set vs [] case foreign =
        subst (λ ws. Passes laws fields [] (set vs) (set ws)) (sym (append-nil vs))
          (Passes-nil laws fields (set vs))
    Passes-foreign fields name known set vs (u ∷ us) case foreign =
        Passes-append laws fields (put_tag u.field_no u.wire_type ++ u.content) (written rt us)
          (set vs) (set (vs ++ u ∷ [])) (set (vs ++ u ∷ us))
          (Passes-field laws fields u.field_no foreign.0 u.wire_type u.content (set vs)
            (set (vs ++ u ∷ []))
            λ p rest.
              case u.field_no u.wire_type vs (reader p (u.content ++ rest)) foreign.1
              ∙ rw (call-put (skip u.wire_type) u.content u.content p rest (foreign.2 rest)) (
                  ap (λ ws. ok (set ws, reader (p + length u.content) rest))
                    (on_read_lem name vs u.field_no u.wire_type u.content)))
          (subst (λ ws. Passes laws fields (written rt us) (set (vs ++ u ∷ [])) (set ws))
            (append_assoc vs (u ∷ []) us)
            (Passes-foreign fields name known set (vs ++ u ∷ []) us case foreign.3))

    pub Passes-unknown :
        (fields : Fields Byte M) (name : String) (known : List ℕ) (options : ReadUnknown Byte)
        (w : WriteUnknown Byte) (set : List (UnknownField Byte) → M) (us : List (UnknownField Byte))
        → ((n : ℕ) (wt : WireType) (ws : List (UnknownField Byte)) (r : Reader Byte)
            → contains known n ≡ false
            → fields n wt (set ws) r
              ≡ (read_unknown rt options name n wt ws r >>= λ (ws', r'). ok (set ws', r')))
        → Carried rt known options w us
        → Passes laws fields (write_unknown rt w name us) (set []) (set us)
    unfolding write_unknown
    Passes-unknown fields name known ReadUnknown.keep WriteUnknown.include set us case c =
        subst (λ b. Passes laws fields b (set []) (set us)) (sym (on_write_lem name us))
          (Passes-foreign fields name known set [] us case c)
    Passes-unknown fields name known ReadUnknown.keep WriteUnknown.omit set us case c =
        none_left fields set us c
    Passes-unknown fields name known ReadUnknown.reject WriteUnknown.omit set us case c =
        none_left fields set us c
    Passes-unknown fields name known ReadUnknown.ignore WriteUnknown.omit set us case c =
        none_left fields set us c
    Passes-unknown fields name known (ReadUnknown.custom f) WriteUnknown.omit set us case c =
        none_left fields set us c
    Passes-unknown fields name known ReadUnknown.reject WriteUnknown.include set us case c =
        nothing fields set name us c
    Passes-unknown fields name known ReadUnknown.ignore WriteUnknown.include set us case c =
        nothing fields set name us c
    Passes-unknown fields name known (ReadUnknown.custom f) WriteUnknown.include set us case c =
        nothing fields set name us c
    Passes-unknown fields name known ReadUnknown.keep (WriteUnknown.custom f) set us case c =
        absurd c
    Passes-unknown fields name known ReadUnknown.reject (WriteUnknown.custom f) set us case c =
        absurd c
    Passes-unknown fields name known ReadUnknown.ignore (WriteUnknown.custom f) set us case c =
        absurd c
    Passes-unknown fields name known (ReadUnknown.custom g) (WriteUnknown.custom f) set us case c =
        absurd c
