-- ===== src/Shell/Laws.antt =====
-- Where the keys of the shell lead.
use kprobe.Base.{String, false, ◌&&◌, ◌||◌, some, ◌≡◌, refl, ◌==◌, string_key, if_both}
use Prim.{Unit, tt}
use kprobe.Session.{Page, page_of, graph_page, stream_page, timeline_page, replay_page}
use kprobe.Shell.{
  is_typing_target, KeyEvent, Effect, nothing, taken, clear_view, escape, goes_to, single_key,
  handle_key_down,
}

module _ (upper : String → String) where
  -- Nothing held and nowhere to type, and the path of a page.
  abbrev Leads : KeyEvent → Effect → Type 0
  Leads e (goes_to path) =
      (is_typing_target e.target ≡ false)
      × ((e.meta_key || e.ctrl_key || e.alt_key || e.shift_key) ≡ false)
      × (page : Page) × (page_of path ≡ some page)
  Leads e _ = Unit

  -- A key leads to another view only where nobody types and no modifier is held, and always to the
  -- path of a page.
  pub handle_key_down-page : (e : KeyEvent) → Leads e (handle_key_down upper e)
  unfolding handle_key_down page_of
  handle_key_down-page e =
      if_both (Leads e) (is_typing_target e.target) nothing _ (λ typing. tt)
        (λ free.
          if_both (Leads e) ((e.meta_key || e.ctrl_key) && upper e.key == "K") taken _ (λ q. tt)
            (λ q.
              if_both (Leads e) ((e.meta_key || e.ctrl_key) && e.shift_key && upper e.key == "C")
                clear_view _ (λ r. tt)
                (λ r.
                  if_both (Leads e) (e.meta_key || e.ctrl_key || e.alt_key || e.shift_key) nothing _
                    (λ held. tt) (λ plain. to_page free plain))))
    where
      to_page :
          is_typing_target e.target ≡ false
          → (e.meta_key || e.ctrl_key || e.alt_key || e.shift_key) ≡ false
          → Leads e (single_key (upper e.key))
      to_page free plain =
          if_both (Leads e) (upper e.key == "G") _ _ (λ q. (free, plain, graph_page, refl))
            (λ q.
              if_both (Leads e) (upper e.key == "S") _ _ (λ q. (free, plain, stream_page, refl))
                (λ q.
                  if_both (Leads e) (upper e.key == "T") _ _
                    (λ q. (free, plain, timeline_page, refl))
                    (λ q.
                      if_both (Leads e) (upper e.key == "R") _ _
                        (λ q. (free, plain, replay_page, refl))
                        (λ q.
                          if_both (Leads e) (upper e.key == "ESCAPE") escape nothing (λ q. tt)
                            (λ q. tt)))))
