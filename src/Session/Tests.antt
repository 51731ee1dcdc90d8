-- ===== src/Session/Tests.antt =====
-- The theorems on sessions applied to concrete ones.
use kprobe.Base.{true, false, none, [], ◌∷◌}
use kprobe.Session.{load, logged_in, toggled, reload, run}
use kprobe.Session.Laws.{InStep, run-InStep}

run-InStep_example :
    InStep
      (logged_in true "jwt" ∷ logged_in false "new" ∷ toggled ∷ reload ∷ [])
      (run (logged_in true "jwt" ∷ logged_in false "new" ∷ toggled ∷ reload ∷ []) (load none))
run-InStep_example =
    run-InStep none (logged_in true "jwt" ∷ logged_in false "new" ∷ toggled ∷ reload ∷ [])
