-- ===== src/Media/Playback/Flags.antt =====
-- What an event of the audio element leaves in the playback flags.
use readflow.Common.{◌≡◌, true, false, not, ◌&&◌, ◌||◌, arith}
use readflow.Media.Playback.{
  MediaEvent, play, pause, waiting, progress, ended_event, playing_event, error_event, tick, Intent,
  PlaybackSnapshot, Playback, is_forced, handle_event, is_stopped_at_rendered_boundary,
  terminal_ended, update_playback_state, should_commit,
}

pub record IsUpdated (i : Intent) (now : PlaybackSnapshot) (p q : Playback) : Type 0 where
  pub stored : q.last_snapshot ≡ now
  pub shown : q.shown_snapshot ≡ now
  pub ends :
      (not (terminal_ended i now p.last_snapshot)
        || (q.has_ended && not q.is_actually_playing && not q.is_waiting_for_data))
      ≡ true
  pub pauses : (now.paused && q.is_actually_playing) ≡ false
  pub waits :
      (not (
          is_stopped_at_rendered_boundary now p.last_snapshot i.play_intent i.is_terminal
            i.rendered_duration_seconds)
        || (q.is_waiting_for_data && not q.is_actually_playing))
      ≡ true
  pub only_terminal : (not q.has_ended || p.has_ended || i.is_terminal) ≡ true

-- After every event of the audio element but a tick: the snapshot is stored and shown; playback at the
-- end of a terminal job has ended and neither plays nor waits; a paused element does not play; playback
-- that stands at the end of the rendered audio waits for data and does not play; and it has ended only
-- if it had ended before or the job is terminal.
pub handle_event-IsUpdated :
    (event : MediaEvent) (i : Intent) (now : PlaybackSnapshot) (p : Playback)
    → is_forced event ≡ true
    → IsUpdated i now p (handle_event event i now p)
unfolding update_playback_state should_commit terminal_ended is_stopped_at_rendered_boundary
    handle_event
handle_event-IsUpdated play i now p f = ground arith
handle_event-IsUpdated pause i now p f = ground arith
handle_event-IsUpdated waiting i now p f = ground arith
handle_event-IsUpdated progress i now p f = ground arith
handle_event-IsUpdated ended_event i now p f = ground arith
handle_event-IsUpdated playing_event i now p f = ground arith
handle_event-IsUpdated error_event i now p f = ground arith
handle_event-IsUpdated tick i now p f = absurd (ground arith)
