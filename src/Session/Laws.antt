-- ===== src/Session/Laws.antt =====
-- The session is in one state throughout, and only a session that is logged in shows a page.
use kprobe.Base.{
  ◌⊎◌, Memᴰ, String, Bool, true, false, Option, none, some, List, [], ◌∷◌, ◌≡◌, ◌↔◌, refl, sym,
  subst, ◌∙◌, if◌then◌else◌, ◌==◌, string_key, Bool-cases, inl, inr,
}
use kprobe.Session.{
  Session, login, in_shell, navigate, Page, load, is_authenticated, is_present, page_of, view,
  Action, logged_in, logged_out, toggled, reload, step, run,
}

-- A login that gave the token `t` and could not store it.
abbrev pub Unstored : List Action → String → Type 0
Unstored acts t = Memᴰ (logged_in false t) acts

-- The session counts as logged in exactly where a token is stored, and then one is in memory; the
-- token in memory is the stored one, or that of a login that could not store it.
pub record InStep (acts : List Action) (s : Session) : Type 0 where
  pub same_auth : s.authed ≡ is_present s.stored
  pub held : s.authed ≡ true → is_present s.token ≡ true
  pub same_token : (s.token ≡ s.stored) ⊎ ((t : String) × Unstored acts t × (s.token ≡ some t))

InStep-load : (acts : List Action) (stored : Option String) → InStep acts (load stored)
unfolding load is_authenticated
InStep-load acts stored = record { same_auth = refl; held = λ h. h; same_token = inl refl }

InStep-step :
    (all : List Action) (a : Action) (s : Session)
    → Memᴰ a all
    → InStep all s
    → InStep all (step a s)
unfolding step
InStep-step all (logged_in true t) s m h = record {
  same_auth = refl;
  held = λ _. refl;
  same_token = inl refl;
}
InStep-step all (logged_in false t) s m h = record {
  same_auth = h.same_auth;
  held = λ _. refl;
  same_token = inr (t, m, refl);
}
InStep-step all logged_out s m h = record { same_auth = refl; held = λ q. q; same_token = inl refl }
InStep-step all toggled s m h = record {
  same_auth = h.same_auth;
  held = h.held;
  same_token = h.same_token;
}
InStep-step all reload s m h = InStep-load all s.stored

InStep-run :
    (all acts : List Action) (s : Session)
    → ((a : Action) → Memᴰ a acts → Memᴰ a all)
    → InStep all s
    → InStep all (run acts s)
InStep-run all [] s among h = h
InStep-run all (a ∷ acts) s among h =
    InStep-run all acts (step a s) (λ b m. among b (Memᴰ.tail m))
      (InStep-step all a s (among a (Memᴰ.head refl)) h)

-- After any logins, with or without a storage that takes the token, logouts and reloads: the session
-- counts as logged in exactly where a token is stored, and then a token is in memory; and the token in
-- memory is the stored one, or that of one of these logins which could not store it.
pub run-InStep :
    (stored : Option String) (acts : List Action) → InStep acts (run acts (load stored))
run-InStep stored acts = InStep-run acts acts (load stored) (λ a m. m) (InStep-load acts stored)

no_page : (b : Bool) (to : String) (p : Page) → (if b then navigate to else login) ≡ in_shell p → ⊥
no_page true to p h = cc
no_page false to p h = cc

shows_iff :
    (b : Bool) (q p : Page)
    → ((if b then in_shell q else login) ≡ in_shell p) ↔ ((b ≡ true) × (some q ≡ some p))
shows_iff true q p = (λ h. (refl, cc), λ w. cc)
shows_iff false q p = (λ h. absurd (cc), λ w. absurd (cc))

found_page :
    (o : Option Page) (b : Bool) (p : Page)
    → (elim o [ none ↦ navigate "/stream" | some q ↦ if b then in_shell q else login ] ≡ in_shell p)
      ↔ ((b ≡ true) × (o ≡ some p))
found_page none b p = (λ h. absurd (cc), λ w. absurd (cc))
found_page (some q) b p = shows_iff b q p

root_has_no_page : (path : String) → (path == "/") ≡ true → page_of path ≡ none
unfolding page_of
root_has_no_page path h =
    subst (λ x. page_of x ≡ none) (sym ((string_key.same_iff path "/").0 h)) refl

-- A path shows a page exactly where it is the path of that page and the session is logged in.
pub view_iff :
    (path : String) (page : Page) (s : Session)
    → (view path s ≡ in_shell page) ↔ ((s.authed ≡ true) × (page_of path ≡ some page))
unfolding view
view_iff path page s = elim (Bool-cases (path == "/")) [
  | inl root ↦ rw root (
    λ h. absurd (no_page s.authed "/stream" page h),
    λ w. absurd (clash (sym (root_has_no_page path root) ∙ w.1)),
  )
  | inr other ↦ rw other (found_page (page_of path) s.authed page)
]
  where
    clash : none ≡ some page → ⊥
    clash h = cc
