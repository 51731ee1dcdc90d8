-- ===== src/Session.antt =====
-- console/src/lib/auth.ts, console/src/App.tsx, console/src/components/RequireAuth.tsx and
-- `authHeaders` of console/src/lib/api.ts: the token of the session, and what a path shows.
-- The storage of the session is the field `stored`, under the one key that the source uses; `reload`
-- is a new start of the page, where the storage is all that is left.
pub mod Laws
mod Tests
use kprobe.Base.{
  String, Bool, true, false, Option, none, some, List, [], ◌∷◌, if◌then◌else◌, ◌==◌, string_key,
}
use kprobe.Json.{template}

pub data Theme : Type 0 where
  dark light : Theme

pub data Page : Type 0 where
  stream_page graph_page timeline_page replay_page settings_page : Page

-- What a path comes to: the login page, a page in the shell with its provider, or another path.
pub data View : Type 0 where
  login : View
  in_shell : Page → View
  navigate : String → View

pub record Session : Type 0 where
  pub stored : Option String
  pub token : Option String
  pub authed : Bool
  pub theme : Theme

unfoldable pub get_token : Session → Option String
get_token s = s.token

-- `_token = token`, then `sessionStorage.setItem`, whose outcome is the flag: `false` is a storage
-- that is full or refused, and the exception is the `false` of the result.
unfoldable pub set_token : Bool → String → Session → Session × Bool
set_token true t s = (record s { token = some t; stored = some t }, true)
set_token false t s = (record s { token = some t }, false)

unfoldable pub clear_token : Session → Session
clear_token s = record s { token = none; stored = none }

abbrev pub is_present : Option String → Bool
is_present none = false
is_present (some t) = true

unfoldable pub is_authenticated : Session → Bool
is_authenticated s = is_present s.token

-- The state after the modules are loaded and `App` is rendered first.
unfoldable pub load : Option String → Session
unfolding is_authenticated
load stored =
    let fresh : Session = record {
      stored = stored;
      token = stored;
      authed = false;
      theme = dark;
    } in
    record fresh { authed = is_authenticated fresh }

abbrev pub auth_header : Option String → Option String
auth_header none = none
auth_header (some t) = if t == "" then none else some (template ("Bearer " ∷ t ∷ []))

-- The value of `Authorization`, if the header is sent.
unfoldable pub auth_headers : Session → Option String
unfolding get_token
auth_headers s = auth_header (get_token s)

unfoldable pub handle_auth : Session → Session
handle_auth s = record s { authed = true }

unfoldable pub handle_logout : Session → Session
unfolding clear_token
handle_logout s = record (clear_token s) { authed = false }

abbrev pub other_theme : Theme → Theme
other_theme dark = light
other_theme light = dark

unfoldable pub handle_theme_toggle : Session → Session
handle_theme_toggle s = record s { theme = other_theme s.theme }

-- The pages of the routes below `RequireAuth`; `none` is the path of no page.
unfoldable pub page_of : String → Option Page
page_of path =
    if path == "/stream"
    then some stream_page
    else if path == "/graph"
    then some graph_page
    else if path == "/timeline"
    then some timeline_page
    else if path == "/replay"
    then some replay_page
    else if path == "/settings"
    then some settings_page
    else none

abbrev pub require_auth : Session → View → View
require_auth s v = if s.authed then v else login

unfoldable pub view : String → Session → View
unfolding page_of
view path s = if path == "/" then require_auth s (navigate "/stream") else elim (page_of path) [
  | none ↦ navigate "/stream"
  | some page ↦ require_auth s (in_shell page)
]

-- The end of `handleSubmit` with a token: `onAuth` is called unless `setToken` throws.
unfoldable pub accept_token : Bool → String → Session → Session
unfolding set_token handle_auth
accept_token writes t s =
    let (after, returned) = set_token writes t s in if returned then handle_auth after else after

-- `logged_in writes t` is a reply that gives a token, and whether the storage takes it.
pub data Action : Type 0 where
  logged_in : Bool → String → Action
  logged_out toggled reload : Action

unfoldable pub step : Action → Session → Session
unfolding accept_token handle_logout handle_theme_toggle load
step (logged_in writes t) s = accept_token writes t s
step logged_out s = handle_logout s
step toggled s = handle_theme_toggle s
step reload s = load s.stored

abbrev pub run : List Action → Session → Session
run [] s = s
run (a ∷ acts) s = run acts (step a s)
