-- ===== src/State/Settings/Sanitized.antt =====
-- Settings survive sanitizing, and whatever is sanitized is in range.
use readflow.Common.{ℕ, ◌≤◌, ◌≡◌, refl, List, [], String, min, max, arith}
use readflow.State.Settings.{
  ReaderSettings, Value, Json, MotionMode, ConveyorWindowSize, auto_motion, reduced_motion,
  always_motion, auto_size, three, four, five, sanitize_fields, sanitize_reader_settings, fields_of,
  field_of, sanitize_motion, sanitize_size, sanitize_flag, sanitize_playback_rate,
  playback_rate_min, playback_rate_max, motion_value, size_value, object, array, no_object,
}

-- A rate that the reader is willing to persist.
abbrev pub IsInRange : ReaderSettings → Type 0
IsInRange s = (playback_rate_min ≤ s.playback_rate) × (s.playback_rate ≤ playback_rate_max)

sanitize_motion-motion_value : (m : MotionMode) → sanitize_motion (motion_value m) ≡ m
unfolding sanitize_motion
sanitize_motion-motion_value auto_motion = refl
sanitize_motion-motion_value reduced_motion = refl
sanitize_motion-motion_value always_motion = refl

sanitize_size-size_value : (m : ConveyorWindowSize) → sanitize_size (size_value m) ≡ m
unfolding sanitize_size
sanitize_size-size_value auto_size = refl
sanitize_size-size_value three = refl
sanitize_size-size_value four = refl
sanitize_size-size_value five = refl

rate_kept :
    (n : ℕ)
    → playback_rate_min ≤ n
    → n ≤ playback_rate_max
    → min playback_rate_max (max playback_rate_min n) ≡ n
rate_kept n a b = omega arith

-- Settings in range are what sanitizing their own fields gives.
pub sanitize_fields-fields_of :
    (s : ReaderSettings) → IsInRange s → sanitize_fields (fields_of s) ≡ s
unfolding sanitize_fields fields_of field_of sanitize_flag sanitize_playback_rate
sanitize_fields-fields_of s (low, high) =
    rw
      (
        sanitize_motion-motion_value s.motion_mode,
        sanitize_size-size_value s.conveyor_window_size,
        rate_kept s.playback_rate low high,
      )
      refl

sanitize_playback_rate-bounds :
    (v : Value)
    → (playback_rate_min ≤ sanitize_playback_rate v)
      × (sanitize_playback_rate v ≤ playback_rate_max)
unfolding sanitize_playback_rate
sanitize_playback_rate-bounds v = ground arith

pub sanitize_fields-IsInRange :
    (fields : List (String × Value)) → IsInRange (sanitize_fields fields)
unfolding sanitize_fields
sanitize_fields-IsInRange fields = sanitize_playback_rate-bounds _

pub sanitize_reader_settings-IsInRange : (value : Json) → IsInRange (sanitize_reader_settings value)
unfolding sanitize_reader_settings
sanitize_reader_settings-IsInRange (object fields) = sanitize_fields-IsInRange fields
sanitize_reader_settings-IsInRange array = sanitize_fields-IsInRange []
sanitize_reader_settings-IsInRange no_object = omega arith
