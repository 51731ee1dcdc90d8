-- ===== src/Settings/Tests.antt =====
-- Settings on a codec of two texts, and the theorems on them applied there.
use kprobe.Base.{
  String, Bool, true, Option, none, some, ◌≡◌, refl, Distinct, if◌then◌else◌, ◌==◌, string_key,
}
use mathlib.Core.List.Memᴰ
use Prim.{tt}
use kprobe.Json.{Codec, Value, str, num, obj, pos, Fields, end, field, prop, num_eq}
use kprobe.Json.Samples.{plain}
use kprobe.Settings.{defaults, load_from_storage, Page, opened, handle_save, with_prop, merged}
use kprobe.Settings.Objects.{names, either_of}
use kprobe.Settings.Storage.{handle_save-opened}

abbrev one_setting : Fields
one_setting = field "version" (num (pos 1)) (field "theme" (str "light") end)

abbrev refusal : Fields
refusal = field "error" (str "unavailable") end

-- The text "s" is the object of one setting, and "e" that of a refusal.
abbrev of_text : String → Option Value
of_text t =
    if t == "s" then some (obj one_setting) else if t == "e" then some (obj refusal) else none

abbrev with_text : String → Codec
with_text t = record { numerals = plain; parse = of_text; stringify = λ v. t }

abbrev roomy : String → Bool
roomy t = true

abbrev page : Page
page = record (opened (with_text "s") none) { settings = one_setting }

theme_kept : prop "theme" (load_from_storage (with_text "s") (some "s")) ≡ some (str "light")
unfolding load_from_storage merged with_prop prop num_eq
theme_kept = refl

once_version : Distinct (names one_setting)
once_version = (λ m. no_theme (Memᴰ.eq_of_singleton m), (Memᴰ.not-nil, tt))
  where
    no_theme : ◌≡◌ {A = String} "version" "theme" → ⊥
    no_theme e = cc

handle_save-opened_example :
    prop "theme" (opened (with_text "s") (handle_save (with_text "s") roomy page).stored).settings
    ≡ either_of (prop "theme" one_setting) (prop "theme" defaults)
unfolding prop num_eq
handle_save-opened_example =
    handle_save-opened (with_text "s") roomy page
      (record { reads = refl; not_empty = refl; each_once = once_version }) refl refl "theme"
