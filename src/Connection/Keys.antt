-- ===== src/Connection/Keys.antt =====
-- The distinct events of a list of texts, by `eventKey`, and the messages made of them.
use kprobe.Base.{
  ℕ, zero, suc, ◌+◌, ◌≤◌, ◌<◌, ◌≡◌, refl, ap, ◌↔◌, ◌⊎◌, inl, inr, ⊎_elim, String, List, [], ◌∷◌,
  ◌++◌, map, Memᴰ, arith, All, All-of_Memᴰ, Memᴰ-All, Memᴰ-cons, Distinct, Distinct-drop, drop,
  length, slice_last-map, length-slice_last, sort, Distinct-sort, put, keys, values, Memᴰ-put,
  Memᴰ-keys-put, Distinct-keys-put, string_key,
}
use mathlib.Core.List.Memᴰ
use kprobe.Json.{Codec}
use kprobe.Connection.{
  ConnectionMessage, event_key, no_later, unique_from, unique, ordered, number, keys_of,
  max_messages,
}

-- The ids rise along the list and none is above `top`.
abbrev pub Rising : ℕ → List ConnectionMessage → Type 0
Rising top [] = Unit
Rising top (m ∷ ms) = (m.id ≤ top) × All (λ n. m.id < n.id) ms × Rising top ms

pub Rising-drop : (top k : ℕ) (ms : List ConnectionMessage) → Rising top ms → Rising top (drop k ms)
Rising-drop top zero ms h = h
Rising-drop top (suc k) [] h = h
Rising-drop top (suc k) (m ∷ ms) h = Rising-drop top k ms h.2

All-lt-concat :
    (k : ℕ) (ms : List ConnectionMessage) (n : ConnectionMessage)
    → All (λ x. k < x.id) ms
    → k < n.id
    → All (λ x. k < x.id) (ms ++ n ∷ [])
All-lt-concat k [] n h p = (p, tt)
All-lt-concat k (m ∷ ms) n (q, h) p = (q, All-lt-concat k ms n h p)

pub Rising-concat :
    (top : ℕ) (ms : List ConnectionMessage) (n : ConnectionMessage)
    → Rising top ms
    → n.id ≡ suc top
    → Rising (suc top) (ms ++ n ∷ [])
Rising-concat top [] n h e = (omega arith, tt, tt)
Rising-concat top (m ∷ ms) n (p, q, h) e =
    (omega arith, All-lt-concat m.id ms n q (omega arith), Rising-concat top ms n h e)

module _ (codec : Codec) where
  abbrev Keyed : List (String × String) → Type 0
  Keyed m = All (λ e. e.0 ≡ event_key codec e.1) m

  Keyed-put :
      (text : String) (m : List (String × String))
      → Keyed m
      → Keyed (put (event_key codec text) text m)
  Keyed-put text m h = All-of_Memᴰ _ _ (λ e q.
      ⊎_elim (λ (p : e ≡ (event_key codec text, text)). rw p refl)
        (λ t. Memᴰ-All (λ e. e.0 ≡ event_key codec e.1) m h t)
        (Memᴰ-put (event_key codec text) text m e q))

  pub unique_from-Keyed :
      (m : List (String × String)) (texts : List String)
      → Keyed m
      → Keyed (unique_from codec m texts)
  unfolding unique_from
  unique_from-Keyed m [] h = h
  unique_from-Keyed m (text ∷ texts) h =
      unique_from-Keyed (put (event_key codec text) text m) texts (Keyed-put text m h)

  map-event_key-values :
      (m : List (String × String)) → Keyed m → map (event_key codec) (values m) ≡ keys m
  map-event_key-values [] h = refl
  map-event_key-values (e ∷ m) (p, h) = rw (map-event_key-values m h, ← p) refl

  Distinct-unique_from :
      (m : List (String × String)) (texts : List String)
      → Distinct (keys m)
      → Distinct (keys (unique_from codec m texts))
  unfolding unique_from
  Distinct-unique_from m [] d = d
  Distinct-unique_from m (text ∷ texts) d =
      Distinct-unique_from (put (event_key codec text) text m) texts
        (Distinct-keys-put (event_key codec text) text m d)

  pub keys-unique :
      (texts : List String)
      → map (event_key codec) (values (unique codec texts)) ≡ keys (unique codec texts)
  keys-unique texts = map-event_key-values _ (unique_from-Keyed [] texts tt)

  Memᴰ-keys-unique_from :
      (j : String) (m : List (String × String)) (texts : List String)
      → Memᴰ j (keys (unique_from codec m texts))
        ↔ (Memᴰ j (keys m) ⊎ Memᴰ j (map (event_key codec) texts))
  unfolding unique_from
  Memᴰ-keys-unique_from j m [] = (inl, ⊎_elim (λ q. q) (λ q. absurd (Memᴰ.not-nil q)))
  Memᴰ-keys-unique_from j m (text ∷ texts) = ground (
    arith,
    Memᴰ-keys-unique_from j (put (event_key codec text) text m) texts,
    Memᴰ-keys-put (event_key codec text) j text m,
    Memᴰ-cons j (event_key codec text) (map (event_key codec) texts),
  )

  pub Memᴰ-keys-unique :
      (j : String) (texts : List String)
      → Memᴰ j (keys (unique codec texts)) ↔ Memᴰ j (map (event_key codec) texts)
  Memᴰ-keys-unique j texts = (
    λ q. ⊎_elim (λ t. absurd (Memᴰ.not-nil t)) (λ t. t) ((Memᴰ-keys-unique_from j [] texts).0 q),
    λ q. (Memᴰ-keys-unique_from j [] texts).1 (inr q),
  )

  pub Distinct-keys-ordered :
      (texts : List String) → Distinct (map (event_key codec) (ordered codec texts))
  unfolding ordered
  Distinct-keys-ordered texts =
      rw
        (← slice_last-map (event_key codec) max_messages
          (sort (no_later codec) (values (unique codec texts))))
        (Distinct-drop _ _ (
          Distinct-sort (event_key codec) (no_later codec) (values (unique codec texts))
            (rw (keys-unique texts) (Distinct-unique_from [] texts tt))))

  pub length-ordered : (texts : List String) → length (ordered codec texts) ≤ max_messages
  unfolding ordered
  length-ordered texts =
      length-slice_last max_messages (sort (no_later codec) (values (unique codec texts)))

  pub keys_of-number :
      (k : ℕ) (texts : List String)
      → keys_of codec (number codec k texts) ≡ map (event_key codec) texts
  unfolding number
  keys_of-number k [] = refl
  keys_of-number k (text ∷ texts) = rw (keys_of-number (suc k) texts) refl

  pub length-number : (k : ℕ) (texts : List String) → length (number codec k texts) ≡ length texts
  unfolding number
  length-number k [] = refl
  length-number k (text ∷ texts) = ap suc (length-number (suc k) texts)

  number-above :
      (k j : ℕ) (texts : List String) → j ≤ k → All (λ m. j < m.id) (number codec k texts)
  unfolding number
  number-above k j [] h = tt
  number-above k j (text ∷ texts) h = (omega arith, number-above (suc k) j texts (omega arith))

  pub Rising-number :
      (k top : ℕ) (texts : List String) → k + length texts ≤ top → Rising top (number codec k texts)
  unfolding number
  Rising-number k top [] h = tt
  Rising-number k top (text ∷ texts) h = (
    omega arith,
    number-above (suc k) (suc k) texts (omega arith),
    Rising-number (suc k) top texts (omega arith),
  )
