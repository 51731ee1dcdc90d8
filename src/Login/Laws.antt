-- ===== src/Login/Laws.antt =====
-- How an attempt to log in ends.
use kprobe.Base.{String, Bool, true, false, some, ◌≡◌, ◌⊎◌}
use kprobe.Json.{Numerals, Value, str, truthy, to_text}
use kprobe.Session.{Session}
use kprobe.Login.{Login, Answer, answered, body_prop}

module _ (numerals : Numerals) (writes : Bool) where
  -- Refused: no token, an unchanged session, and an error that is shown.
  abbrev pub Refused : Login → Login → Type 0
  Refused s after = (after.session ≡ s.session) × (truthy after.error ≡ true)

  -- The session after a login whose token the storage does not take: only the token in memory is new.
  abbrev pub unstored : String → Session → Session
  unstored t s = record s { token = some t }

  abbrev pub logged_in_with : String → Session → Session
  logged_in_with t s = record s { token = some t; stored = some t; authed = true }

  -- Given a token: it is stored and held, the session is logged in and no error is shown; or the
  -- storage refuses it, it is held in memory alone, and an error is shown.
  abbrev pub Settled : String → Login → Login → Type 0
  Settled t s after =
      (writes ≡ true) × (after.session ≡ logged_in_with t s.session) × (after.error ≡ str "")
      ⊎ (writes ≡ false) × (after.session ≡ unstored t s.session) × (truthy after.error ≡ true)

  -- The reply was `ok` with a token.
  abbrev pub Given : Answer → Login → Login → Type 0
  Given a s after =
      (body : Value) × (token : Value) × (a ≡ answered true body)
      × (body_prop "token" body ≡ some (some token))
      × (truthy token ≡ true)
      × Settled (to_text numerals token) s after

  abbrev pub Ended : Answer → Login → Login → Type 0
  Ended a s after = (after.loading ≡ false) × (Refused s after ⊎ Given a s after)
