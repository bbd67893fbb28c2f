-- ===== src/State/Theme/Resolved.antt =====
-- Runs of the theme's store, web/src/hooks/useTheme.ts.
use readflow.Common.{◌≡◌, refl, true, some, List, [], ◌∷◌, arith, ◌∙◌}
use readflow.State.Theme.{
  Theme, dark, light, ThemeStore, ThemeEvent, theme_of, theme_text, get_stored_theme, resolve_theme,
  commit_theme, set_theme, toggle_theme, init_theme, sync_from_storage, sync_from_system,
  subscribe_theme, theme_step, theme_run,
}

record IsResolved (s : ThemeStore) : Type 0 where
  wired : s.ambient_sources_wired ≡ true
  stored : s.has_storage ≡ true
  resolved : s.current_theme ≡ resolve_theme s
  shown : s.applied ≡ s.current_theme

theme_of-theme_text : (t : Theme) → theme_of (some (theme_text t)) ≡ some t
theme_of-theme_text dark = refl
theme_of-theme_text light = refl

set_theme-IsResolved : (t : Theme) (s : ThemeStore) → IsResolved s → IsResolved (set_theme t s)
unfolding set_theme commit_theme get_stored_theme resolve_theme
set_theme-IsResolved t s r = ground (arith, theme_of-theme_text t)

commit_theme-IsResolved :
    (s : ThemeStore)
    → s.ambient_sources_wired ≡ true
    → s.has_storage ≡ true
    → s.applied ≡ s.current_theme
    → IsResolved (commit_theme (resolve_theme s) s)
unfolding commit_theme get_stored_theme resolve_theme
commit_theme-IsResolved s w h a = ground arith

theme_step-IsResolved :
    (e : ThemeEvent) (s : ThemeStore) → IsResolved s → IsResolved (theme_step e s)
unfolding theme_step
theme_step-IsResolved (ThemeEvent.chosen t) s r = set_theme-IsResolved t s r
theme_step-IsResolved ThemeEvent.toggled s r = unfold toggle_theme in set_theme-IsResolved _ s r
theme_step-IsResolved (ThemeEvent.written_elsewhere item) s r =
    unfold sync_from_storage commit_theme get_stored_theme resolve_theme in ground arith
theme_step-IsResolved ThemeEvent.other_item_written s r = unfold sync_from_storage in ground arith
theme_step-IsResolved (ThemeEvent.system_changed t) s r =
    unfold sync_from_system commit_theme get_stored_theme resolve_theme in ground arith

theme_run-IsResolved :
    (es : List ThemeEvent) (s : ThemeStore) → IsResolved s → IsResolved (theme_run es s)
unfolding theme_run
theme_run-IsResolved [] s r = r
theme_run-IsResolved (e ∷ es) s r =
    theme_run-IsResolved es (theme_step e s) (theme_step-IsResolved e s r)

init_theme-IsResolved :
    (s : ThemeStore) → s.has_storage ≡ true → IsResolved (subscribe_theme (init_theme s))
unfolding subscribe_theme init_theme resolve_theme get_stored_theme
init_theme-IsResolved s works = record {
  wired = refl;
  stored = works;
  resolved = refl;
  shown = refl;
}

-- With a storage that works, once the theme is initialized and has a subscriber, after any choices and
-- toggles, writes by other tabs and changes of the system's preference: the theme in memory and the class
-- of the document are the one that a page which is opened then would resolve, the stored one or else the
-- system's.
pub theme_run-resolved :
    (es : List ThemeEvent) (s : ThemeStore)
    → s.has_storage ≡ true
    → let later = theme_run es (subscribe_theme (init_theme s)) in
      (later.current_theme ≡ resolve_theme later) × (later.applied ≡ resolve_theme later)
theme_run-resolved es s works =
    let r =
      theme_run-IsResolved es (subscribe_theme (init_theme s)) (init_theme-IsResolved s works) in
    (r.resolved, r.shown ∙ r.resolved)
