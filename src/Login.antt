-- ===== src/Login.antt =====
-- console/src/pages/Login.tsx: the state of the login form and its request, with the session that a
-- login changes. `error` is the value that `setError` is given, which the form shows where it is true.
pub mod Laws
mod Tests
use kprobe.Base.{
  ℕ, String, Bool, true, false, not, ◌&&◌, ◌||◌, Option, none, some, if◌then◌else◌, ◌==◌,
  string_key,
}
use kprobe.Json.{Numerals, Value, null, obj, str, Fields, prop, truthy, or_else, to_text}
use kprobe.Session.{Session, accept_token}

pub record Login : Type 0 where
  pub username : String
  pub password : String
  pub error : Value
  pub loading : Bool
  pub session : Session

abbrev pub initial : Session → Login
initial session = record {
  username = "";
  password = "";
  error = str "";
  loading = false;
  session = session;
}

-- What the request comes to: it fails or its body is no JSON, or `response.ok` and the body.
pub data Answer : Type 0 where
  failed : Answer
  answered : Bool → Value → Answer

abbrev pub can_submit : Login → Bool
can_submit s = not (s.loading || s.username == "" || s.password == "")

unfoldable pub submit : Login → Login
submit s = record s { error = str ""; loading = true }

abbrev pub unavailable : Value
unavailable = str "API unavailable. Start the stack with `make dev`."

-- A property of the body; those of `null` throw.
abbrev pub body_prop : String → Value → Option (Option Value)
body_prop k null = none
body_prop k (obj fs) = some (prop k fs)
body_prop k _ = some none

abbrev pub is_given : Option Value → Bool
is_given none = false
is_given (some v) = truthy v

-- `writes` says whether `sessionStorage.setItem` takes the token; its exception is caught, after
-- `_token` is assigned.
module _ (numerals : Numerals) (writes : Bool) where
  -- The properties `token` and `error` of a body that has properties.
  abbrev pub take_body : Bool → Option Value → Option Value → Login → Login
  take_body ok token error s =
      if not ok || not (is_given token)
      then record s { error = or_else error (str "Invalid credentials.") }
      else record s {
        session = accept_token writes (to_text numerals (or_else token (str ""))) s.session;
        error = if writes then s.error else unavailable;
      }

  abbrev pub take_answer : Answer → Login → Login
  take_answer failed s = record s { error = unavailable }
  take_answer (answered ok body) s = elim (body_prop "token" body) [
    | none ↦ record s { error = unavailable }
    | some token ↦ elim (body_prop "error" body) [
      | none ↦ record s { error = unavailable }
      | some error ↦ take_body ok token error s
    ]
  ]

  -- The rest of `handleSubmit`, once the request has ended.
  unfoldable pub finish : Answer → Login → Login
  unfolding truthy to_text prop accept_token
  finish a s = record (take_answer a s) { loading = false }
