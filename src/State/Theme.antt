-- ===== src/State/Theme.antt =====
-- The theme of web/src/hooks/useTheme.ts: one value in memory, the class of the document, the browser's storage and the
-- system's preference.
pub mod Resolved
use readflow.Common.{
  ℕ, ◌+◌, Bool, true, false, not, ◌&&◌, Option, none, some, List, [], ◌∷◌, String, str_eq, or_else,
  if◌then◌else◌,
}

pub data Theme : Type 0 where
  dark light : Theme

abbrev pub same_theme : Theme → Theme → Bool
same_theme dark dark = true
same_theme light light = true
same_theme a b = false

-- The document's class is `applied`; what storage holds under the theme's key is `item`. Without a
-- storage both its calls throw.
pub record ThemeStore : Type 0 where
  pub current_theme : Theme
  pub applied : Theme
  pub notified : ℕ
  pub ambient_sources_wired : Bool
  pub has_storage : Bool
  pub item : Option String
  pub system : Theme

abbrev pub theme_of : Option String → Option Theme
theme_of none = none
theme_of (some text) =
    if str_eq text "dark" then some dark else if str_eq text "light" then some light else none

abbrev pub theme_text : Theme → String
theme_text dark = "dark"
theme_text light = "light"

unfoldable pub get_stored_theme : ThemeStore → Option Theme
get_stored_theme s = if s.has_storage then theme_of s.item else none

unfoldable pub resolve_theme : ThemeStore → Theme
resolve_theme s = or_else (get_stored_theme s) s.system

unfoldable pub commit_theme : Theme → ThemeStore → ThemeStore
commit_theme theme s =
    if same_theme theme s.current_theme
    then s
    else record s { current_theme = theme; applied = theme; notified = s.notified + 1 }

unfoldable pub set_theme : Theme → ThemeStore → ThemeStore
set_theme next s =
    if same_theme next s.current_theme
    then s
    else commit_theme next (if s.has_storage then record s { item = some (theme_text next) } else s)

unfoldable pub toggle_theme : ThemeStore → ThemeStore
toggle_theme s = set_theme (elim s.current_theme [ dark ↦ light | light ↦ dark ]) s

unfoldable pub init_theme : ThemeStore → ThemeStore
init_theme s = record s { current_theme = resolve_theme s; applied = resolve_theme s }

-- A `storage` event, with whether its key is another one than the theme's.
unfoldable pub sync_from_storage : Bool → ThemeStore → ThemeStore
sync_from_storage is_other_key s = if is_other_key then s else commit_theme (resolve_theme s) s

abbrev sync_unless : Option Theme → ThemeStore → ThemeStore
sync_unless none s = commit_theme s.system s
sync_unless (some stored) s = s

unfoldable pub sync_from_system : ThemeStore → ThemeStore
sync_from_system s = sync_unless (get_stored_theme s) s

-- The first subscriber.
unfoldable pub subscribe_theme : ThemeStore → ThemeStore
subscribe_theme s = record s { ambient_sources_wired = true }

-- What happens to the store: its functions, another tab that writes or clears the item or another one,
-- and a change of the system's preference.
pub data ThemeEvent : Type 0 where
  chosen : Theme → ThemeEvent
  toggled : ThemeEvent
  written_elsewhere : Option String → ThemeEvent
  other_item_written : ThemeEvent
  system_changed : Theme → ThemeEvent

unfoldable pub theme_step : ThemeEvent → ThemeStore → ThemeStore
theme_step (chosen theme) s = set_theme theme s
theme_step toggled s = toggle_theme s
theme_step (written_elsewhere item) s =
    let written : ThemeStore = record s { item = item } in
    if s.ambient_sources_wired then sync_from_storage false written else written
theme_step other_item_written s = if s.ambient_sources_wired then sync_from_storage true s else s
theme_step (system_changed theme) s =
    let changed : ThemeStore = record s { system = theme } in
    if s.ambient_sources_wired then sync_from_system changed else changed

unfoldable pub theme_run : List ThemeEvent → ThemeStore → ThemeStore
theme_run [] s = s
theme_run (e ∷ es) s = theme_run es (theme_step e s)
