-- ===== src/Connection/Receive.antt =====
-- A live message that arrives twice.
use kprobe.Base.{
  ℕ, suc, ◌-◌, ◌≡◌, refl, ap, inl, inr, String, true, false, List, [], ◌∷◌, ◌++◌, Memᴰ, arith,
  slice_last, drop-append, length-append, length, Memᴰ-add_all, contains, contains_iff, Bool-cases,
  string_key, if◌then◌else◌,
}
use mathlib.Core.List.Memᴰ
use kprobe.Json.{Codec}
use kprobe.Connection.{Connection, event_key, append_message, on_message}

last_kept : {A : Type 0} (n : ℕ) (xs : List A) (a : A) → Memᴰ a (slice_last (suc n) (xs ++ a ∷ []))
last_kept n xs a =
    rw
      (drop-append (length (xs ++ a ∷ []) - suc n) xs (a ∷ [])
        (omega (arith, length-append xs (a ∷ []))))
      (Memᴰ.append_right _ (Memᴰ.head refl))

module _ (codec : Codec) where
  appended_seen :
      (text : String) (c : Connection)
      → contains (append_message codec text c).seen (event_key codec text) ≡ true
  unfolding append_message
  appended_seen text c = (contains_iff (event_key codec text) _).1 (
      (Memᴰ-add_all (event_key codec text) [] _).1
        (inr (Memᴰ.map (λ m. event_key codec m.data_text) (last_kept 1999 c.messages _))))

  seen_ignored :
      (text : String) (c : Connection)
      → contains c.seen (event_key codec text) ≡ true
      → c.mounted ≡ true
      → c.hydrated ≡ true
      → on_message codec text c ≡ c
  unfolding on_message
  seen_ignored text c s m h = simp (m, h, s)

  pub new_appended :
      (text : String) (c : Connection)
      → contains c.seen (event_key codec text) ≡ false
      → c.mounted ≡ true
      → c.hydrated ≡ true
      → on_message codec text c ≡ append_message codec text c
  unfolding on_message
  new_appended text c s m h = simp (m, h, s)

  -- Once the provider is hydrated, a message that arrives a second time in a row changes nothing;
  -- one whose key was seen changes nothing the first time either, and any other is appended.
  pub receive_twice :
      (text : String) (c : Connection)
      → c.mounted ≡ true
      → c.hydrated ≡ true
      → (on_message codec text (on_message codec text c) ≡ on_message codec text c)
        × (on_message codec text c
            ≡ (if contains c.seen (event_key codec text) then c else append_message codec text c))
  receive_twice text c m h = elim (Bool-cases (contains c.seen (event_key codec text))) [
    | inl old ↦ let e = seen_ignored text c old m h in (ap (on_message codec text) e, simp (e, old))
    | inr new ↦
        let e = new_appended text c new m h in
        (
          simp e (
              seen_ignored text (append_message codec text c) (appended_seen text c)
                (unfold append_message in m) (unfold append_message in h)),
          simp (e, new),
        )
  ]
