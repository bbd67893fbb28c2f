-- ===== src/Media/Playback/States.antt =====
-- What the derived player state tells.
use readflow.Common.{◌≡◌, Bool, true, false, not, ◌&&◌, ◌||◌, leb, ltb, arith}
use readflow.Media.Playback.{
  Intent, StreamState, Playback, PlayerState, derive_player_state, idle, priming,
  waiting_for_first_chunk, ready_paused, playing, stalled_waiting_for_next_chunk, ended, error,
  is_stopped_at_rendered_boundary, is_none,
}

-- What each player state tells of the flags and the stream it was derived from.
abbrev pub tells : PlayerState → Intent → StreamState → Playback → Bool
tells idle i s p = not i.play_intent && not (s.has_stream_key && not s.is_stream_primed)
tells priming i s p = not i.play_intent && s.has_stream_key && not s.is_stream_primed
tells waiting_for_first_chunk i s p =
    i.play_intent
    && (not s.is_stream_primed
        || leb i.rendered_duration_seconds 50
        || leb p.shown_snapshot.current_time_seconds 50)
tells ready_paused i s p =
    s.is_stream_primed
    && ltb 50 i.rendered_duration_seconds
    && (not i.play_intent || not p.is_actually_playing)
tells playing i s p =
    i.play_intent && p.is_actually_playing && not p.is_waiting_for_data && s.is_stream_primed
tells stalled_waiting_for_next_chunk i s p =
    i.play_intent && s.is_stream_primed && ltb 50 p.shown_snapshot.current_time_seconds
tells ended i s p = i.is_terminal && (p.has_ended || not p.is_actually_playing)
tells error i s p = not (is_none p.last_player_error)

abbrev pub is_error : PlayerState → Bool
is_error error = true
is_error _ = false

abbrev pub is_waiting_state : PlayerState → Bool
is_waiting_state waiting_for_first_chunk = true
is_waiting_state stalled_waiting_for_next_chunk = true
is_waiting_state _ = false

-- Each derived state agrees with the flags and the stream: an error is shown exactly for a player
-- error's message, playing needs the intent, a primed stream and flags that play without waiting, the
-- end needs a terminal job, the two waiting states the intent. The waiting flag is kept if it was set,
-- and is only set newly in one of the two waiting states.
pub derive_player_state_lem :
    (i : Intent) (s : StreamState) (p : Playback)
    → let (state, waiting) = derive_player_state i s p in
      (tells state i s p ≡ true)
      × ((is_error state ≡ not (is_none p.last_player_error)))
      × ((not waiting || p.is_waiting_for_data || is_waiting_state state) ≡ true)
      × ((waiting || not p.is_waiting_for_data) ≡ true)
unfolding derive_player_state is_stopped_at_rendered_boundary
derive_player_state_lem i s p = ground arith
