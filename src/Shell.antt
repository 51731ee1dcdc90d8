-- ===== src/Shell.antt =====
-- console/src/components/Shell.tsx: the titles of the views, and what the keys do everywhere.
-- The upper case of a key is an argument.
pub mod Laws
use kprobe.Base.{
  String, Bool, true, false, not, ◌&&◌, ◌||◌, Option, none, some, ◌≡◌, refl, inl, inr,
  if◌then◌else◌, ◌==◌, string_key, if_both, arith,
}

pub record ViewMeta : Type 0 where
  pub title : String
  pub description : String

-- `VIEW_META[path] ?? …`
unfoldable pub meta_of : String → ViewMeta
meta_of path =
    if path == "/stream"
    then record { title = "Live Stream"; description = "real-time kernel event feed" }
    else if path == "/graph"
    then record { title = "Causal Graph"; description = "cause-effect chain explorer" }
    else if path == "/timeline"
    then record { title = "Timeline"; description = "nanosecond-precision event timeline" }
    else if path == "/replay"
    then record { title = "Replay"; description = "deterministic incident replay" }
    else if path == "/settings"
    then record { title = "Settings"; description = "configuration" }
    else record { title = "kprobe"; description = "" }

-- The target of a key: `none` is no element of the page.
pub record Target : Type 0 where
  pub tag : String
  pub editable : Bool

unfoldable pub is_typing_target : Option Target → Bool
is_typing_target none = false
is_typing_target (some el) =
    el.tag == "INPUT" || el.tag == "TEXTAREA" || el.tag == "SELECT" || el.editable

pub record KeyEvent : Type 0 where
  pub target : Option Target
  pub key : String
  pub meta_key : Bool
  pub ctrl_key : Bool
  pub alt_key : Bool
  pub shift_key : Bool

-- What a key does; `taken` keeps the browser from its own action, and does nothing else.
pub data Effect : Type 0 where
  nothing taken clear_view escape : Effect
  goes_to : String → Effect

abbrev pub single_key : String → Effect
single_key key =
    if key == "G"
    then goes_to "/graph"
    else if key == "S"
    then goes_to "/stream"
    else if key == "T"
    then goes_to "/timeline"
    else if key == "R"
    then goes_to "/replay"
    else if key == "ESCAPE"
    then escape
    else nothing

module _ (upper : String → String) where
  unfoldable pub handle_key_down : KeyEvent → Effect
  unfolding is_typing_target
  handle_key_down e =
      if is_typing_target e.target
      then nothing
      else if (e.meta_key || e.ctrl_key) && upper e.key == "K"
      then taken
      else if (e.meta_key || e.ctrl_key) && e.shift_key && upper e.key == "C"
      then clear_view
      else if e.meta_key || e.ctrl_key || e.alt_key || e.shift_key
      then nothing
      else single_key (upper e.key)
