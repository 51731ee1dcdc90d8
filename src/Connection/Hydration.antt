-- ===== src/Connection/Hydration.antt =====
-- What hydration keeps of the stored and the buffered events.
use kprobe.Base.{
  ℕ, ◌+◌, ◌-◌, ◌≡◌, ◌≢◌, refl, sym, ap, ◌∙◌, subst, ◌⊎◌, inl, inr, ⊎_elim, String, true, false, not,
  List, [], ◌∷◌, ◌++◌, map, Memᴰ, arith, All, All-of_Memᴰ, Memᴰ-All, length, length-drop,
  slice_last, slice_last_short, sort, IsSorted, sort-IsSorted, Memᴰ-sort, Memᴰ-map-sort,
  IsSorted-drop, drop-IsSorted, put, values, Memᴰ-put, string_key, leb, leb→le, Bool-cases,
  contains, contains_iff, set_of, nat_eq, ◌||◌,
}
use mathlib.Core.List.Memᴰ
use kprobe.Json.{Codec, nan}
use kprobe.Json.Laws.{lt_num_asymm, lt_num_trans}
use kprobe.Connection.{
  Connection, max_messages, event_key, event_timestamp, no_later, unique_from, unique, ordered,
  number, hydrate, keys_of,
}
use kprobe.Connection.Keys.{Memᴰ-keys-unique, keys-unique, keys_of-number, length-number}

module _ (codec : Codec) where
  abbrev pub Dated : String → Type 0
  Dated text = event_timestamp codec text ≢ nan

  values-unique_from :
      (m : List (String × String)) (texts : List String) (text : String)
      → Memᴰ text (values (unique_from codec m texts))
      → Memᴰ text (values m) ⊎ Memᴰ text texts
  unfolding unique_from
  values-unique_from m [] text q = inl q
  values-unique_from m (t ∷ texts) text q =
      ⊎_elim (λ p. ⊎_elim (λ (e : text ≡ t). inr (Memᴰ.head e)) inl (in_put p))
        (λ p. inr (Memᴰ.tail p)) (values-unique_from (put (event_key codec t) t m) texts text q)
    where
      in_put : Memᴰ text (values (put (event_key codec t) t m)) → (text ≡ t) ⊎ Memᴰ text (values m)
      in_put p =
          let (e, r, s) = Memᴰ.of_map (λ e. e.1) (put (event_key codec t) t m) p in
          ⊎_elim (λ (u : e ≡ (event_key codec t, t)). inl (sym s ∙ ap (λ v. v.1) u))
            (λ u. inr (subst (λ v. Memᴰ v (values m)) s (Memᴰ.map (λ e. e.1) u)))
            (Memᴰ-put (event_key codec t) t m e r)

  sorted : List String → List String
  sorted texts = sort (no_later codec) (values (unique codec texts))

  sorted-IsSorted :
      (texts : List String) → All Dated texts → IsSorted (no_later codec) (sorted texts)
  unfolding sorted
  sorted-IsSorted texts h =
      sort-IsSorted (no_later codec) Dated (λ a b. lt_num_asymm _ _)
        (λ a b c n. lt_num_trans _ _ _ n) (values (unique codec texts))
        (All-of_Memᴰ Dated _ (λ a m.
          Memᴰ-All Dated texts h
            (⊎_elim (λ q. absurd (Memᴰ.not-nil q)) (λ q. q) (values-unique_from [] texts a m))))

  -- A list cut to its last elements lost none, or is as long as the cut allows.
  cut_full :
      {A : Type 0} (n : ℕ) (xs : List A) → (slice_last n xs ≡ xs) ⊎ (length (slice_last n xs) ≡ n)
  cut_full n xs = elim (Bool-cases (leb (length xs) n)) [
    | inl short ↦ inl (slice_last_short n xs (leb→le _ _ short))
    | inr long ↦ inr (length-drop (length xs - n) xs ∙ ground arith)
  ]

  newest_cut :
      (n : ℕ) (xs : List String) (x : String)
      → IsSorted (no_later codec) xs
      → Memᴰ x xs
      → Memᴰ x (slice_last n xs)
        ⊎ (length (slice_last n xs) ≡ n)
          × ((y : String) → Memᴰ y (slice_last n xs) → no_later codec x y ≡ true)
  newest_cut n xs x s m = elim (Bool-cases (contains (slice_last n xs) x)) [
    | inl kept ↦ inl ((contains_iff x _).0 kept)
    | inr lost ↦
        ⊎_elim (λ (e : slice_last n xs ≡ xs). inl (rw e m))
          (λ full. inr (
            full,
            λ y q.
                ⊎_elim (λ k. absurd (cc ((contains_iff x (slice_last n xs)).1 k))) (λ e. e)
                  (IsSorted-drop (no_later codec) (length xs - n) x y xs s m q),
          ))
          (cut_full n xs)
  ]

  -- Where no timestamp is NaN, the events that hydration keeps are in the order of time, and each
  -- distinct event is among them, or they are 2000 and it is later than none of them.
  pub ordered_newest :
      (texts : List String) (x : String)
      → All Dated texts
      → Memᴰ x (values (unique codec texts))
      → IsSorted (no_later codec) (ordered codec texts)
        × (Memᴰ x (ordered codec texts)
            ⊎ (length (ordered codec texts) ≡ max_messages)
              × ((y : String) → Memᴰ y (ordered codec texts) → no_later codec x y ≡ true))
  unfolding ordered sorted
  ordered_newest texts x h m = (
    drop-IsSorted (no_later codec) _ _ (sorted-IsSorted texts h),
    newest_cut max_messages (sorted texts) x (sorted-IsSorted texts h)
        ((Memᴰ-sort (no_later codec) x _).1 m),
  )

  keys_cut :
      (n : ℕ) (texts : List String) (j : String)
      → Memᴰ j (map (event_key codec) texts)
      → Memᴰ j (map (event_key codec) (slice_last n (sorted texts)))
        ⊎ (length (slice_last n (sorted texts)) ≡ n)
  unfolding sorted
  keys_cut n texts j m =
      ⊎_elim
        (λ (e : slice_last n (sorted texts) ≡ sorted texts). inl (
          rw e (
            (Memᴰ-map-sort (event_key codec) (no_later codec) j _).1
              (rw (keys-unique codec texts) ((Memᴰ-keys-unique codec j texts).1 m)))))
        inr (cut_full n (sorted texts))

  hydrate_live :
      (lifecycle : ℕ) (stored : List String) (c : Connection)
      → c.mounted ≡ true
      → c.lifecycle ≡ lifecycle
      → hydrate codec lifecycle stored c ≡ record c {
        buffered = [];
        seen = set_of (map (event_key codec) (ordered codec (stored ++ c.buffered)));
        messages = number codec c.sequence (ordered codec (stored ++ c.buffered));
        sequence = c.sequence + length (ordered codec (stored ++ c.buffered));
        hydrated = true;
      }
  unfolding hydrate
  hydrate_live lifecycle stored c m l = cc (live m l)
    where
      live :
          c.mounted ≡ true
          → c.lifecycle ≡ lifecycle
          → (not c.mounted || not (nat_eq lifecycle c.lifecycle)) ≡ false
      live m l = ground arith

  -- Hydration of a mounted provider, in the lifecycle that asked for it: every event, stored or
  -- buffered before, has a message with its key afterwards, or the list is full at 2000; nothing is
  -- left in the buffer, and from then on live messages are appended.
  pub hydrate_keeps :
      (lifecycle : ℕ) (stored : List String) (c : Connection) (text : String)
      → c.mounted ≡ true
      → c.lifecycle ≡ lifecycle
      → Memᴰ text (stored ++ c.buffered)
      → let c' = hydrate codec lifecycle stored c in
        (Memᴰ (event_key codec text) (keys_of codec c'.messages)
          ⊎ (length c'.messages ≡ max_messages))
        × (c'.buffered ≡ [])
        × (c'.hydrated ≡ true)
  hydrate_keeps lifecycle stored c text m l q = rw (hydrate_live lifecycle stored c m l) (
    rw
        (
          keys_of-number codec c.sequence (ordered codec (stored ++ c.buffered)),
          length-number codec c.sequence (ordered codec (stored ++ c.buffered)),
        )
        (unfold ordered sorted in
          keys_cut max_messages (stored ++ c.buffered) _ (Memᴰ.map (event_key codec) q)),
    refl,
    refl,
  )
