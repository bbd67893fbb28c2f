-- ===== src/State/Settings.antt =====
-- Reader preferences: web/src/state/reader-settings.ts. Rates are in thousandths. The browser's storage
-- and `JSON` are parameters.
pub mod Sanitized
pub mod Stored
use readflow.Common.{
  ℕ, suc, ◌++◌, ◌≤◌, ◌≡◌, Bool, true, false, not, ◌&&◌, ◌||◌, Option, none, some, List, [], ◌∷◌,
  String, str_eq, leb, ltb, min, max, ◌==◌, if◌then◌else◌,
}

pub data MotionMode : Type 0 where
  auto_motion reduced_motion always_motion : MotionMode

pub data ConveyorWindowSize : Type 0 where
  auto_size three four five : ConveyorWindowSize

-- 0.1 and 4.
abbrev pub playback_rate_min : ℕ
playback_rate_min = 100

abbrev pub playback_rate_max : ℕ
playback_rate_max = 4000

pub record ReaderSettings : Type 0 where
  pub motion_mode : MotionMode
  pub show_conveyor : Bool
  pub show_chunk_jump_buttons : Bool
  pub conveyor_window_size : ConveyorWindowSize
  pub continuous_play : Bool
  pub playback_rate : ℕ

abbrev pub default_reader_settings : ReaderSettings
default_reader_settings = record {
  motion_mode = auto_motion;
  show_conveyor = true;
  show_chunk_jump_buttons = true;
  conveyor_window_size = auto_size;
  continuous_play = true;
  playback_rate = 1000;
}

-- A value of a field: a number is a finite one that is not negative, a negative one, or infinite (a
-- parsed `1e999`); an object or an array is not looked into, since no field keeps one.
pub data Value : Type 0 where
  null_value nested infinite : Value
  boolean : Bool → Value
  number negative : ℕ → Value
  text : String → Value

-- What `JSON.parse` may give.
pub data Json : Type 0 where
  no_object array : Json
  object : List (String × Value) → Json

unfoldable pub sanitize_playback_rate : Value → ℕ
sanitize_playback_rate (number n) = min playback_rate_max (max playback_rate_min n)
sanitize_playback_rate (negative n) = playback_rate_min
sanitize_playback_rate _ = 1000

unfoldable pub sanitize_motion : Value → MotionMode
sanitize_motion (text t) =
    if str_eq t "reduced"
    then reduced_motion
    else if str_eq t "always"
    then always_motion
    else auto_motion
sanitize_motion _ = auto_motion

unfoldable pub sanitize_size : Value → ConveyorWindowSize
sanitize_size (number n) =
    if n == 3000 then three else if n == 4000 then four else if n == 5000 then five else auto_size
sanitize_size _ = auto_size

unfoldable pub sanitize_flag : Bool → Value → Bool
sanitize_flag default_flag (boolean b) = b
sanitize_flag default_flag _ = default_flag

-- `value.key`, where a repeated key has its last value; null stands for undefined, which no field keeps.
unfoldable pub field_of : String → List (String × Value) → Value → Value
field_of key [] found = found
field_of key ((k, v) ∷ fields) found = field_of key fields (if str_eq k key then v else found)

unfoldable pub sanitize_fields : List (String × Value) → ReaderSettings
sanitize_fields fields = record {
  motion_mode = sanitize_motion (field_of "motionMode" fields null_value);
  show_conveyor = sanitize_flag true (field_of "showConveyor" fields null_value);
  show_chunk_jump_buttons = sanitize_flag true (field_of "showChunkJumpButtons" fields null_value);
  conveyor_window_size = sanitize_size (field_of "conveyorWindowSize" fields null_value);
  continuous_play = sanitize_flag true (field_of "continuousPlay" fields null_value);
  playback_rate = sanitize_playback_rate (field_of "playbackRate" fields null_value);
}

-- An array is an object without these fields.
unfoldable pub sanitize_reader_settings : Json → ReaderSettings
sanitize_reader_settings (object fields) = sanitize_fields fields
sanitize_reader_settings array = sanitize_fields []
sanitize_reader_settings no_object = default_reader_settings

abbrev pub motion_value : MotionMode → Value
motion_value auto_motion = text "auto"
motion_value reduced_motion = text "reduced"
motion_value always_motion = text "always"

abbrev pub size_value : ConveyorWindowSize → Value
size_value auto_size = text "auto"
size_value three = number 3000
size_value four = number 4000
size_value five = number 5000

-- A settings object as the fields it has in JavaScript.
unfoldable pub fields_of : ReaderSettings → List (String × Value)
fields_of s =
    ("motionMode", motion_value s.motion_mode)
    ∷ ("showConveyor", boolean s.show_conveyor)
    ∷ ("showChunkJumpButtons", boolean s.show_chunk_jump_buttons)
    ∷ ("conveyorWindowSize", size_value s.conveyor_window_size)
    ∷ ("continuousPlay", boolean s.continuous_play)
    ∷ ("playbackRate", number s.playback_rate)
    ∷ []

unfoldable pub resolve_animated_motion : MotionMode → Bool → Bool
resolve_animated_motion always_motion prefers_reduced = true
resolve_animated_motion reduced_motion prefers_reduced = false
resolve_animated_motion auto_motion prefers_reduced = not prefers_reduced

-- The browser: `localStorage` may be missing, `getItem` and `setItem` may throw, and so may the parser.
pub data Read : Type 0 where
  missing threw : Read
  found : String → Read

pub record Browser (S : Type 0) : Type 0 where
  pub has_storage : Bool
  pub get_item : S → Read
  -- None when `setItem` throws.
  pub set_item : String → S → Option S
  -- None when the text is no JSON.
  pub parse : String → Option Json
  pub stringify : Json → String

module _ {S : Type 0} (b : Browser S) where
  abbrev from_parsed : Option Json → ReaderSettings
  from_parsed none = default_reader_settings
  from_parsed (some value) = sanitize_reader_settings value

  abbrev from_read : Read → ReaderSettings
  from_read missing = default_reader_settings
  from_read threw = default_reader_settings
  from_read (found raw) =
      if str_eq raw "" then default_reader_settings else from_parsed (b.parse raw)

  unfoldable pub load_from_storage : S → ReaderSettings
  load_from_storage s =
      if not b.has_storage then default_reader_settings else from_read (b.get_item s)

  abbrev written_or : S → Option S → S
  written_or s none = s
  written_or s (some t) = t

  unfoldable pub persist : ReaderSettings → S → S
  persist settings s =
      if not b.has_storage
      then s
      else written_or s (b.set_item (b.stringify (object (fields_of settings))) s)

-- The module's variables, with the storage; a notification is counted.
pub record SettingsStore (S : Type 0) : Type 0 where
  pub cached : Option ReaderSettings
  pub storage : S
  pub notified : ℕ

-- `Partial<ReaderSettings>`, as the fields that it gives.
module _ {S : Type 0} (b : Browser S) where
  unfoldable pub get_reader_settings : SettingsStore S → ReaderSettings × SettingsStore S
  get_reader_settings m = elim m.cached [
    | some settings ↦ (settings, m)
    | none ↦
        let loaded = load_from_storage b m.storage in (loaded, record m { cached = some loaded })
  ]

  -- `cached = …; persist(cached); notify()`.
  unfoldable pub store_settings : ReaderSettings → SettingsStore S → SettingsStore S
  store_settings settings m = record {
    cached = some settings;
    storage = persist b settings m.storage;
    notified = suc m.notified;
  }

  unfoldable pub set_reader_settings : List (String × Value) → SettingsStore S → SettingsStore S
  set_reader_settings patch m =
      let (current, read) = get_reader_settings m in
      store_settings (sanitize_fields (fields_of current ++ patch)) read

  unfoldable pub reset_reader_settings : SettingsStore S → SettingsStore S
  reset_reader_settings m = store_settings default_reader_settings m

  unfoldable pub invalidate_reader_settings_cache : SettingsStore S → SettingsStore S
  invalidate_reader_settings_cache m = record m { cached = none }
