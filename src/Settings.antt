-- ===== src/Settings.antt =====
-- console/src/pages/Settings.tsx: the settings, how they are stored and loaded, and the handlers of the
-- page. Settings are an object of JSON, since the page takes over whatever object the API or the
-- storage gives it; a body that is no object is not modelled. The storage is the text under
-- `kprobe_settings`; whether it has room for a text is the argument `fits`.
pub mod Objects
pub mod Storage
mod Tests
use kprobe.Base.{
  ℕ, zero, suc, ◌-◌, String, Bool, true, false, not, Option, none, some, List, [], ◌∷◌,
  if◌then◌else◌, ◌==◌, string_key, nat_eq, ltb,
}
use kprobe.Json.{
  Codec, Value, null, bool, str, num, obj, Num, pos, Fields, end, field, prop, num_eq,
}

abbrev pub defaults : Fields
defaults = field "version" (num (pos 1)) (
    field "apiHost" (str "localhost") (
      field "apiPort" (str "8081") (
        field "wsReconnect" (bool true) (
          field "theme" (str "dark") (
            field "timestampFormat" (str "absolute") (
              field "maxStreamEvents" (num (pos 500)) (
                field "maxGraphNodes" (num (pos 40)) (
                  field "retentionDays" (num (pos 7)) (
                    field "autoExport" (bool false) (
                      field "exportPath" (str "/var/log/kprobe/exports")
                        (field "probeOverhead" (str "standard") end)))))))))))

-- An object with the property `k` set to `v`: in its place, or as the last one.
unfoldable pub with_prop : String → Value → Fields → Fields
with_prop k v end = field k v end
with_prop k v (field j w fs) =
    let rest = with_prop k v fs in if j == k then field j v fs else field j w rest

-- `{ ...a, ...b }`
unfoldable pub merged : Fields → Fields → Fields
unfolding with_prop
merged a end = a
merged a (field k v fs) = merged (with_prop k v a) fs

abbrev pub is_one : Value → Bool
is_one (num n) = num_eq n (pos 1)
is_one _ = false

-- `parsed.version === DEFAULTS.version`
abbrev pub is_current : Fields → Bool
is_current fs = elim (prop "version" fs) [ none ↦ false | some v ↦ is_one v ]

-- The settings of a stored value; `null` throws, and no other value has a version.
abbrev pub settings_of : Value → Fields
settings_of (obj fs) = if is_current fs then merged defaults fs else defaults
settings_of _ = defaults

pub record Page : Type 0 where
  pub settings : Fields
  pub saved : Bool
  pub stored : Option String
  pub timers : ℕ  -- those of `setTimeout` that have not fired
  pub data_theme : Option String  -- the attribute of the document, `none` as it was found
  pub saving : ℕ  -- requests of `handleSave` that have not ended

pub data Action : Type 0 where
  fetched : Option Fields → Action
  changed : String → Value → Action
  theme_chosen : Bool → String → Action
  save_clicked reset_clicked save_answered timed_out : Action

module _ (codec : Codec) where
  open codec use {parse, stringify}

  unfoldable pub load_from_storage : Option String → Fields
  unfolding merged prop num_eq
  load_from_storage none = defaults
  load_from_storage (some raw) =
      if raw == ""
      then defaults
      else elim (parse raw) [ none ↦ defaults | some parsed ↦ settings_of parsed ]

  -- The page when it is opened.
  abbrev pub opened : Option String → Page
  opened stored = record {
    settings = load_from_storage stored;
    saved = false;
    stored = stored;
    timers = 0;
    data_theme = none;
    saving = 0;
  }

  abbrev pub is_dirty : Page → Bool
  is_dirty s = not (stringify (obj s.settings) == stringify (obj defaults))

  module _ (fits : String → Bool) where
    unfoldable pub save_to_storage : Fields → Page → Page
    save_to_storage fs s =
        if fits (stringify (obj fs)) then record s { stored = some (stringify (obj fs)) } else s

    -- What the request at the start gives: `none` where it fails or its body is no JSON.
    unfoldable pub take_fetched : Option Fields → Page → Page
    unfolding save_to_storage
    take_fetched none s = s
    take_fetched (some fs) s = save_to_storage fs (record s { settings = fs })

    unfoldable pub set : String → Value → Page → Page
    set k v s = record s { settings = with_prop k v s.settings; saved = false }

    -- The control of the theme; `dark` says whether the system prefers a dark one.
    unfoldable pub choose_theme : Bool → String → Page → Page
    unfolding set
    choose_theme dark v s = record (set "theme" (str v) s) {
      data_theme = some (if v == "system" then if dark then "dark" else "light" else v);
    }

    unfoldable pub handle_save : Page → Page
    unfolding save_to_storage
    handle_save s = record (save_to_storage s.settings s) { saving = suc s.saving }

    -- The end of the request of `handleSave`, in `try` and in `catch`.
    abbrev pub save_ended : Page → Page
    save_ended s =
        if ltb 0 s.saving
        then record s { saving = s.saving - 1; saved = true; timers = suc s.timers }
        else s

    abbrev pub timer_fired : Page → Page
    timer_fired s = if ltb 0 s.timers then record s { timers = s.timers - 1; saved = false } else s

    unfoldable pub handle_reset : Page → Page
    handle_reset s = record s { stored = none; settings = defaults; saved = false }

    unfoldable pub step : Action → Page → Page
    unfolding take_fetched set choose_theme handle_save handle_reset
    step (fetched o) s = take_fetched o s
    step (changed k v) s = set k v s
    step (theme_chosen dark v) s = choose_theme dark v s
    step save_clicked s = handle_save s
    step reset_clicked s = handle_reset s
    step save_answered s = save_ended s
    step timed_out s = timer_fired s
