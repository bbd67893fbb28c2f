-- ===== src/Input/Shortcuts.antt =====
-- The playback keys of web/src/hooks/usePlaybackShortcuts.ts. Seconds are whole.
use readflow.Common.{
  Bool, true, false, ◌||◌, Option, none, some, List, [], ◌∷◌, String, str_eq, if◌then◌else◌, any,
}
use readflow.Common.Int.{ℤ, pos, negsuc}

-- A job is the previous or the next one.
pub data PlaybackShortcut : Type 0 where
  toggle : PlaybackShortcut
  skip : ℤ → PlaybackShortcut
  previous_job next_job : PlaybackShortcut

pub record KeyEvent : Type 0 where
  pub key : String
  pub shift_key : Bool
  pub ctrl_key : Bool
  pub meta_key : Bool
  pub alt_key : Bool
  pub repeat : Bool

-- The element with the keyboard's focus; the tag's name is in capitals.
pub record KeyTarget : Type 0 where
  pub is_content_editable : Bool
  pub tag_name : String
  pub is_in_dialog : Bool

abbrev ignores : KeyTarget → Bool
ignores t =
    if t.is_content_editable
    then true
    else if any (str_eq t.tag_name) ("INPUT" ∷ "TEXTAREA" ∷ "SELECT" ∷ "OPTION" ∷ [])
    then true
    else t.is_in_dialog

unfoldable pub should_ignore_playback_shortcut : Option KeyTarget → Bool
should_ignore_playback_shortcut none = false
should_ignore_playback_shortcut (some t) = ignores t

abbrev back_10 : ℤ
back_10 = negsuc 9

abbrev is_one_of : List String → String → Bool
is_one_of keys key = any (str_eq key) keys

unfoldable pub resolve_playback_shortcut : KeyEvent → Option PlaybackShortcut
resolve_playback_shortcut e =
    if e.ctrl_key || e.meta_key || e.alt_key
    then none
    else if is_one_of (" " ∷ "Spacebar" ∷ "k" ∷ "K" ∷ []) e.key
    then some toggle
    else if str_eq e.key "ArrowLeft"
    then some (skip (if e.shift_key then negsuc 4 else back_10))
    else if str_eq e.key "ArrowRight"
    then some (skip (if e.shift_key then pos 5 else pos 10))
    else if str_eq e.key "ArrowUp"
    then some (skip (pos 30))
    else if str_eq e.key "ArrowDown"
    then some (skip (negsuc 29))
    else if is_one_of ("j" ∷ "J" ∷ []) e.key
    then some (skip back_10)
    else if is_one_of ("l" ∷ "L" ∷ []) e.key
    then some (skip (pos 10))
    else if str_eq e.key "["
    then some previous_job
    else if str_eq e.key "]"
    then some next_job
    else none

-- What the listener calls, if anything, and whether the key's own action is prevented.
pub data KeyCall : Type 0 where
  no_call call_toggle_play call_previous_job call_next_job : KeyCall
  call_skip_by : ℤ → KeyCall

abbrev called : Option PlaybackShortcut → Bool → KeyCall × Bool
called none repeat = (no_call, false)
called (some toggle) repeat = (if repeat then no_call else call_toggle_play, true)
called (some previous_job) repeat = (call_previous_job, true)
called (some next_job) repeat = (call_next_job, true)
called (some (skip delta)) repeat = (call_skip_by delta, true)

unfoldable pub handle_key_down : Option KeyTarget → KeyEvent → KeyCall × Bool
handle_key_down target e =
    if should_ignore_playback_shortcut target
    then (no_call, false)
    else called (resolve_playback_shortcut e) e.repeat
