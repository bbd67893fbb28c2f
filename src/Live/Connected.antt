-- ===== src/Live/Connected.antt =====
-- While somebody listens the client is connected or about to be, and it stops when nobody does.
use readflow.Common.{
  ℕ, ◌≡◌, Bool, true, false, not, ◌&&◌, ◌||◌, Option, none, some, String, ltb, ◌==◌, arith, List,
  ◌++◌, [], ◌∷◌,
}
use readflow.Live.{
  LiveClient, MessageKind, mark_activity, schedule_reconnect, connect, retain, release, stop,
  on_open, on_message, on_error, on_close, reconnect_fires, release_fires, stale_fires,
  heartbeat_fires, snapshot_failed, send_playback_sync, read_message, idle, open_socket,
}

pub data LiveEvent : Type 0 where
  retained released reconnect stale : LiveEvent
  release_timeout : Bool → LiveEvent
  opened_at : ℕ → ℕ → LiveEvent
  message : ℕ → MessageKind → ℕ → LiveEvent
  errored closed : ℕ → LiveEvent
  heartbeat : Bool → Bool → LiveEvent
  sync_error : String → LiveEvent
  playback : Bool → String → ℕ → Bool → LiveEvent

unfoldable pub handle : LiveEvent → LiveClient → LiveClient
handle retained c = retain c
handle released c = release c
handle reconnect c = reconnect_fires c
handle stale c = stale_fires c
handle (release_timeout is_closable) c = release_fires is_closable c
handle (opened_at s now) c = on_open s now c
handle (message s kind now) c = on_message s kind now c
handle (errored s) c = on_error s c
handle (closed s) c = on_close s c
handle (heartbeat is_open sent) c = heartbeat_fires is_open sent c
handle (sync_error text) c = snapshot_failed text c
handle (playback is_open job_id position is_playing) c =
    (send_playback_sync is_open job_id position is_playing c).0

abbrev pub has_socket : Option ℕ → Bool
has_socket none = false
has_socket (some s) = true

pub record IsLive (c : LiveClient) : Type 0 where
  pub tries : (not c.started || has_socket c.socket || has_socket c.reconnect_timer) ≡ true
  pub rests :
      (c.started
        || (not (has_socket c.socket)
            && not (has_socket c.reconnect_timer)
            && not c.heartbeat_timer
            && not c.stale_timer))
      ≡ true
  pub wanted : (c.started || (c.subscribers == 0)) ≡ true
  pub leaves : (not c.started || ltb 0 c.subscribers || c.release_timer) ≡ true
  pub waits : (not c.release_timer || (c.subscribers == 0)) ≡ true
  pub shows : c.shown.shown_attempt ≡ c.reconnect_attempt
  pub open_close : (not c.started || not c.intentional_close) ≡ true

retain-IsLive : (c : LiveClient) → IsLive c → IsLive (retain c)
unfolding retain connect
retain-IsLive c g = ground arith

release-IsLive : (c : LiveClient) → IsLive c → IsLive (release c)
unfolding release
release-IsLive c g = ground arith

reconnect_fires-IsLive : (c : LiveClient) → IsLive c → IsLive (reconnect_fires c)
unfolding reconnect_fires connect
reconnect_fires-IsLive c g = ground arith

release_fires-IsLive : (b : Bool) (c : LiveClient) → IsLive c → IsLive (release_fires b c)
unfolding release_fires stop
release_fires-IsLive b c g = ground arith

stale_fires-IsLive : (c : LiveClient) → IsLive c → IsLive (stale_fires c)
unfolding stale_fires
stale_fires-IsLive c g = ground arith

on_open-IsLive : (s now : ℕ) (c : LiveClient) → IsLive c → IsLive (on_open s now c)
unfolding on_open mark_activity
on_open-IsLive s now c g = ground arith

on_message-IsLive :
    (s : ℕ) (kind : MessageKind) (now : ℕ) (c : LiveClient)
    → IsLive c
    → IsLive (on_message s kind now c)
unfolding on_message mark_activity read_message
on_message-IsLive s kind now c g = ground arith

on_error-IsLive : (s : ℕ) (c : LiveClient) → IsLive c → IsLive (on_error s c)
unfolding on_error
on_error-IsLive s c g = ground arith

on_close-IsLive : (s : ℕ) (c : LiveClient) → IsLive c → IsLive (on_close s c)
unfolding on_close schedule_reconnect
on_close-IsLive s c g = ground arith

heartbeat_fires-IsLive :
    (is_open sent : Bool) (c : LiveClient) → IsLive c → IsLive (heartbeat_fires is_open sent c)
unfolding heartbeat_fires
heartbeat_fires-IsLive is_open sent c g = ground arith

snapshot_failed-IsLive :
    (text : String) (c : LiveClient) → IsLive c → IsLive (snapshot_failed text c)
unfolding snapshot_failed
snapshot_failed-IsLive text c g = ground arith

send_playback_sync-IsLive :
    (is_open : Bool) (job_id : String) (position : ℕ) (is_playing : Bool) (c : LiveClient)
    → IsLive c
    → IsLive (send_playback_sync is_open job_id position is_playing c).0
unfolding send_playback_sync
send_playback_sync-IsLive is_open job_id position is_playing c g = ground arith

handle-IsLive : (e : LiveEvent) (c : LiveClient) → IsLive c → IsLive (handle e c)
unfolding handle
handle-IsLive retained c g = retain-IsLive c g
handle-IsLive released c g = release-IsLive c g
handle-IsLive reconnect c g = reconnect_fires-IsLive c g
handle-IsLive stale c g = stale_fires-IsLive c g
handle-IsLive (release_timeout b) c g = release_fires-IsLive b c g
handle-IsLive (opened_at s now) c g = on_open-IsLive s now c g
handle-IsLive (message s kind now) c g = on_message-IsLive s kind now c g
handle-IsLive (errored s) c g = on_error-IsLive s c g
handle-IsLive (closed s) c g = on_close-IsLive s c g
handle-IsLive (heartbeat b sent) c g = heartbeat_fires-IsLive b sent c g
handle-IsLive (sync_error text) c g = snapshot_failed-IsLive text c g
handle-IsLive (playback is_open job_id position is_playing) c g =
    send_playback_sync-IsLive is_open job_id position is_playing c g

abbrev pub new_client : LiveClient
new_client = record {
  subscribers = 0;
  started = false;
  socket = none;
  reconnect_timer = none;
  heartbeat_timer = false;
  stale_timer = false;
  release_timer = false;
  reconnect_attempt = 0;
  has_connected_once = false;
  intentional_close = false;
  opened_sockets = 0;
  shown = record {
    status = idle;
    last_message_at = none;
    last_error = none;
    shown_attempt = 0;
    is_stale = false;
  };
  log = [];
}

-- The events in the order they happen in.
unfoldable pub run : List LiveEvent → LiveClient → LiveClient
run [] c = c
run (e ∷ es) c = run es (handle e c)

run-keeps : (es : List LiveEvent) (c : LiveClient) → IsLive c → IsLive (run es c)
unfolding run
run-keeps [] c g = g
run-keeps (e ∷ es) c g = run-keeps es (handle e c) (handle-IsLive e c g)

-- After any events in any order, also of old sockets: a started client has a socket or a reconnect
-- pending; a stopped one has no socket and no timer but the release's, and no subscribers; a started
-- one has subscribers or a release pending, and a release is pending only without subscribers; the
-- shown number of attempts is the client's; and a started client does not ignore a close.
pub run-IsLive : (es : List LiveEvent) → IsLive (run es new_client)
run-IsLive es = run-keeps es new_client (ground arith)

-- A client that keeps the invariant does not get stuck: without subscribers the end of the grace period
-- leaves it stopped, and a started client without a socket has one after the reconnect timer fired.
pub release_fires-reconnect_fires :
    (c : LiveClient) (is_closable : Bool)
    → IsLive c
    → ((ltb 0 c.subscribers || not (release_fires is_closable c).started) ≡ true)
      × ((not c.started || has_socket c.socket || has_socket (reconnect_fires c).socket) ≡ true)
unfolding release_fires reconnect_fires stop connect
release_fires-reconnect_fires c is_closable g = ground arith

-- The close of an old socket that arrives while a newer one is current and no reconnect is pending, in
-- a started client that is not closing: it turns the heartbeat of the
-- newer one off and schedules a reconnect, and when that fires, a third socket replaces the newer one,
-- which is not closed.
pub on_close-old_socket :
    (c : LiveClient) (current old : ℕ)
    → c.started ≡ true
    → c.intentional_close ≡ false
    → c.reconnect_timer ≡ none
    → c.socket ≡ some current
    → (current == old) ≡ false
    → ((on_close old c).socket ≡ some current)
      × ((on_close old c).heartbeat_timer ≡ false)
      × ((reconnect_fires (on_close old c)).socket ≡ some c.opened_sockets)
      × ((reconnect_fires (on_close old c)).log ≡ c.log ++ open_socket c.opened_sockets ∷ [])
unfolding on_close schedule_reconnect reconnect_fires connect
on_close-old_socket c current old s i t h n = ground arith
