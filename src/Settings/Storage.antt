-- ===== src/Settings/Storage.antt =====
-- What of the settings a stored text brings back.
use kprobe.Base.{
  String, Bool, true, false, Option, none, some, ◌≡◌, ◌≢◌, refl, sym, ◌∙◌, ap, subst, Memᴰ,
  Distinct, if◌then◌else◌, ◌==◌, string_key, if_both, Option-cases, inl, inr,
}
use kprobe.Json.{Codec, Value, null, bool, str, num, arr, obj, Fields, prop, num_eq}
use kprobe.Settings.{
  defaults, merged, is_one, is_current, settings_of, load_from_storage, Page, opened,
  save_to_storage, take_fetched, handle_save,
}
use kprobe.Settings.Objects.{names, either_of, prop-merged, prop_there}

-- An object whose text can be read back, of which no property occurs twice.
pub record Readable (codec : Codec) (fs : Fields) : Type 0 where
  pub reads : codec.parse (codec.stringify (obj fs)) ≡ some (obj fs)
  pub not_empty : (codec.stringify (obj fs) == "") ≡ false
  pub each_once : Distinct (names fs)

load_text :
    (codec : Codec) (fs : Fields)
    → Readable codec fs
    → load_from_storage codec (some (codec.stringify (obj fs))) ≡ settings_of (obj fs)
unfolding load_from_storage
load_text codec fs r =
    let Is : Fields → Type 0 = λ x. x ≡ settings_of (obj fs) in
    if_both Is (codec.stringify (obj fs) == "") defaults _ (λ e. absurd (clash e r.not_empty))
      (λ e.
        ap (λ o. elim o as (λ _. Fields) [ none ↦ defaults | some parsed ↦ settings_of parsed ])
          r.reads)
  where
    clash : {b : Bool} → b ≡ true → b ≡ false → ⊥
    clash h k = cc

-- Version 1, and a value for each setting.
abbrev Complete : Fields → Type 0
Complete fs = (is_current fs ≡ true) × ((k : String) → Memᴰ k (names defaults) → prop k fs ≢ none)

either-some : (o d : Option Value) → d ≢ none → either_of o d ≢ none
either-some none d n = n
either-some (some v) d n = λ e. cc

Complete-defaults : Complete defaults
unfolding prop num_eq
Complete-defaults = (refl, λ k m. prop_there k defaults m)

Complete-merged :
    (fs : Fields) → Distinct (names fs) → is_current fs ≡ true → Complete (merged defaults fs)
Complete-merged fs d current = (
  rw (is_current, prop-merged "version" defaults fs d) (version (prop "version" fs) current),
  λ k m. rw (prop-merged k defaults fs d) (either-some (prop k fs) _ (Complete-defaults.1 k m)),
)
  where
    version :
        (o : Option Value)
        → elim o [ none ↦ false | some v ↦ is_one v ] ≡ true
        → elim (either_of o (prop "version" defaults)) [ none ↦ false | some v ↦ is_one v ] ≡ true
    version none h = absurd (cc)
    version (some v) h = h

Complete-settings_of :
    (v : Value) → ((fs : Fields) → v ≡ obj fs → Distinct (names fs)) → Complete (settings_of v)
Complete-settings_of null once = Complete-defaults
Complete-settings_of (bool b) once = Complete-defaults
Complete-settings_of (num n) once = Complete-defaults
Complete-settings_of (str t) once = Complete-defaults
Complete-settings_of (arr vs) once = Complete-defaults
Complete-settings_of (obj fs) once =
    if_both Complete (is_current fs) (merged defaults fs) defaults
      (Complete-merged fs (once fs refl)) (λ old. Complete-defaults)

module _ (codec : Codec) (fits : String → Bool) where
  stored_text :
      (fs : Fields) (s : Page)
      → fits (codec.stringify (obj fs)) ≡ true
      → (save_to_storage codec fits fs s).stored ≡ some (codec.stringify (obj fs))
  unfolding save_to_storage
  stored_text fs s room =
      subst (λ b. (if b then with_text else s).stored ≡ some (codec.stringify (obj fs))) (sym room)
        refl
    where
      with_text : Page
      with_text = record s { stored = some (codec.stringify (obj fs)) }

  keeps : (fs : Fields) (s : Page) → (save_to_storage codec fits fs s).settings ≡ s.settings
  unfolding save_to_storage
  keeps fs s =
      if_both (λ u. u.settings ≡ s.settings) (fits (codec.stringify (obj fs))) _ s (λ e. refl)
        (λ e. refl)

  -- Where the storage has room, the settings of a page that saves are those of the page that is opened
  -- next: each property has the value that was saved, and one that was not saved its default.
  pub handle_save-opened :
      (s : Page)
      → Readable codec s.settings
      → is_current s.settings ≡ true
      → fits (codec.stringify (obj s.settings)) ≡ true
      → (k : String)
      → prop k (opened codec (handle_save codec fits s).stored).settings
        ≡ either_of (prop k s.settings) (prop k defaults)
  unfolding handle_save
  handle_save-opened s r current room k =
      ap (λ o. prop k (load_from_storage codec o)) (stored_text s.settings s room)
      ∙ ap (prop k) (load_text codec s.settings r)
      ∙ subst
          (λ b.
            prop k (if b then merged defaults s.settings else defaults)
            ≡ either_of (prop k s.settings) (prop k defaults))
          (sym current) (prop-merged k defaults s.settings r.each_once)

  -- An object without version 1, as the body of an error, that the request at the start gives replaces
  -- the settings; it is stored over what was saved, so that the page that is opened next has the
  -- defaults.
  pub take_fetched-opened :
      (s : Page) (fs : Fields)
      → Readable codec fs
      → is_current fs ≡ false
      → fits (codec.stringify (obj fs)) ≡ true
      → ((take_fetched codec fits (some fs) s).settings ≡ fs)
        × ((opened codec (take_fetched codec fits (some fs) s).stored).settings ≡ defaults)
  unfolding take_fetched
  take_fetched-opened s fs r old room = (
    settings-saved,
    ap (load_from_storage codec) (stored_text fs (record s { settings = fs }) room)
        ∙ load_text codec fs r
        ∙ subst (λ b. (if b then merged defaults fs else defaults) ≡ defaults) (sym old) refl,
  )
    where
      shown : Page
      shown = record s { settings = fs }

      settings-saved : (save_to_storage codec fits fs shown).settings ≡ fs
      settings-saved = keeps fs shown

-- Whatever text is stored, a page opens with version 1 and with a value for each setting.
pub load_from_storage_complete :
    (codec : Codec)
    → ((raw : String) (fs : Fields) → codec.parse raw ≡ some (obj fs) → Distinct (names fs))
    → (stored : Option String)
    → (is_current (load_from_storage codec stored) ≡ true)
      × ((k : String) → Memᴰ k (names defaults) → prop k (load_from_storage codec stored) ≢ none)
unfolding load_from_storage
load_from_storage_complete codec once none = Complete-defaults
load_from_storage_complete codec once (some raw) =
    if_both Complete (raw == "") defaults _ (λ e. Complete-defaults)
      (λ e. elim (Option-cases (codec.parse raw)) [
        | inl no_json ↦ rw no_json Complete-defaults
        | inr (v, read) ↦ rw read (Complete-settings_of v (λ fs q. once raw fs (read ∙ ap some q)))
      ])
