-- ===== src/Login/Tests.antt =====
-- A login that is accepted, and the theorem on its end applied there.
use kprobe.Base.{true, false, some, none, ◌≡◌, refl}
use kprobe.Json.{Fields, end, field, obj, str, prop, truthy, to_text}
use kprobe.Json.Samples.{plain}
use kprobe.Session.{load, accept_token}
use kprobe.Login.{Login, initial, answered, submit, finish}

abbrev given : Fields
given = field "token" (str "jwt") end

abbrev filled : Login
filled = record (initial (load none)) { username = "admin"; password = "secret" }

logs_in : (finish plain true (answered true (obj given)) (submit filled)).session.token ≡ some "jwt"
unfolding finish submit prop truthy to_text accept_token
logs_in = refl

-- Where the storage refuses the token, it is held and the session is not logged in.
half_in :
    (finish plain false (answered true (obj given)) (submit filled)).session
    ≡ record (load none) { token = some "jwt" }
unfolding finish submit prop truthy to_text accept_token
half_in = refl
