-- ===== src/Live.antt =====
-- The live connection: `LiveClient` of web/src/lib/live-client.ts as a state machine. A socket is the
-- number it was opened as; timers are on or off, and fire as events. The browser's WebSocket, the
-- snapshot requests and what `applyEvent` does are not modelled: requests are logged.
pub mod Connected
mod Tests
use readflow.Common.{
  ℕ, zero, suc, ◌+◌, ◌-◌, Bool, true, false, not, ◌&&◌, ◌||◌, Option, none, some, List, [], ◌∷◌,
  ◌++◌, String, leb, ltb, ◌==◌, if◌then◌else◌,
}

-- The code's "open" is `connected`.
pub data WebSocketStatus : Type 0 where
  idle connecting connected reconnecting error : WebSocketStatus

-- The texts of `error`; a reconnect's has the delay in milliseconds.
pub data LiveError : Type 0 where
  disconnected : ℕ → LiveError
  stale_updates socket_error heartbeat_failed non_text : LiveError
  malformed : String → LiveError
  sync_failed : String → LiveError

pub data Request : Type 0 where
  open_socket close_socket : ℕ → Request
  sync_snapshot : String → Request
  ping : ℕ → Request
  apply_event : String → Request
  playback_sync : ℕ → String → ℕ → Bool → Request

-- The part of the app store that the client sets.
pub record SocketState : Type 0 where
  pub status : WebSocketStatus
  pub last_message_at : Option ℕ
  pub last_error : Option LiveError
  pub shown_attempt : ℕ
  pub is_stale : Bool

-- The fields of `LiveClient`, the number of sockets opened so far, and the log.
pub record LiveClient : Type 0 where
  pub subscribers : ℕ
  pub started : Bool
  pub socket : Option ℕ
  pub reconnect_timer : Option ℕ
  pub heartbeat_timer : Bool
  pub stale_timer : Bool
  pub release_timer : Bool
  pub reconnect_attempt : ℕ
  pub has_connected_once : Bool
  pub intentional_close : Bool
  pub opened_sockets : ℕ
  pub shown : SocketState
  pub log : List Request

abbrev pub request : Request → LiveClient → LiveClient
request r c = record c { log = c.log ++ r ∷ [] }

-- `RECONNECT_DELAYS_MS[min(attempt - 1, 2)]`.
unfoldable pub reconnect_delay : ℕ → ℕ
reconnect_delay attempt = if leb attempt 1 then 1000 else if leb attempt 2 then 2000 else 5000

unfoldable pub mark_activity : ℕ → LiveClient → LiveClient
mark_activity now c = if not c.started then c else record c {
  shown = record c.shown { last_message_at = some now; is_stale = false; last_error = none };
  stale_timer = true;
}

abbrev is_on : Option ℕ → Bool
is_on none = false
is_on (some delay) = true

unfoldable pub schedule_reconnect : LiveClient → LiveClient
schedule_reconnect c =
    let attempt = suc c.reconnect_attempt in
    let delay = reconnect_delay attempt in
    if not c.started || is_on c.reconnect_timer then c else record c {
      reconnect_attempt = attempt;
      shown = record c.shown {
        status = reconnecting;
        shown_attempt = attempt;
        last_error = some (disconnected delay);
      };
      reconnect_timer = some delay;
    }

unfoldable pub connect : LiveClient → LiveClient
connect c = if not c.started then c else record c {
  intentional_close = false;
  shown = record c.shown {
    status = if ltb 0 c.reconnect_attempt then reconnecting else connecting;
    shown_attempt = c.reconnect_attempt;
    is_stale = false;
  };
  socket = some c.opened_sockets;
  opened_sockets = suc c.opened_sockets;
  log = c.log ++ open_socket c.opened_sockets ∷ [];
}

unfoldable pub retain : LiveClient → LiveClient
retain c =
    let held = record c { subscribers = suc c.subscribers; release_timer = false } in
    if c.started
    then held
    else connect (request (sync_snapshot "Bootstrap sync failed") (record held { started = true }))

unfoldable pub release : LiveClient → LiveClient
release c =
    let left = record c { subscribers = c.subscribers - 1 } in
    if ltb 0 left.subscribers || c.release_timer then left else record left { release_timer = true }

-- `stop`, where the flag tells whether the socket is not closing yet.
abbrev closed_by_stop : Bool → Option ℕ → List Request
closed_by_stop true (some s) = close_socket s ∷ []
closed_by_stop _ _ = []

unfoldable pub stop : Bool → LiveClient → LiveClient
stop is_closable c = record c {
  started = false;
  has_connected_once = false;
  reconnect_attempt = 0;
  release_timer = false;
  reconnect_timer = none;
  heartbeat_timer = false;
  stale_timer = false;
  intentional_close = true;
  socket = none;
  shown = record {
    status = idle;
    last_error = none;
    last_message_at = none;
    shown_attempt = 0;
    is_stale = false;
  };
  log = c.log ++ closed_by_stop is_closable c.socket;
}

abbrev pub is_current : Option ℕ → ℕ → Bool
is_current none s = false
is_current (some t) s = t == s

-- What the browser and the parser make of a message.
pub data MessageKind : Type 0 where
  binary blank pong : MessageKind
  unreadable envelope : String → MessageKind

read_message : MessageKind → LiveClient → LiveClient
read_message binary c = record c {
  shown = record c.shown { status = error; last_error = some non_text };
}
read_message blank c = c
read_message (unreadable text) c = record c {
  shown = record c.shown { status = error; last_error = some (malformed text) };
}
read_message pong c = c
read_message (envelope text) c = request (apply_event text) c

unfoldable pub on_open : ℕ → ℕ → LiveClient → LiveClient
on_open s now c =
    let did_reconnect = c.has_connected_once || ltb 0 c.reconnect_attempt in
    let active = mark_activity now (record c {
      has_connected_once = true;
      reconnect_attempt = 0;
      shown = record c.shown {
        status = connected;
        shown_attempt = 0;
        last_error = none;
        is_stale = false;
      };
    }) in
    let beating = record active { heartbeat_timer = true } in
    if not c.started || not (is_current c.socket s)
    then c
    else if did_reconnect
    then request (sync_snapshot "Reconnect sync failed") beating
    else beating

unfoldable pub on_message : ℕ → MessageKind → ℕ → LiveClient → LiveClient
unfolding read_message
on_message s kind now c =
    if not c.started || not (is_current c.socket s)
    then c
    else read_message kind (mark_activity now c)

unfoldable pub on_error : ℕ → LiveClient → LiveClient
on_error s c =
    if not c.started || not (is_current c.socket s)
    then c
    else record c { shown = record c.shown { status = error; last_error = some socket_error } }

unfoldable pub on_close : ℕ → LiveClient → LiveClient
on_close s c =
    let left = if is_current c.socket s then record c { socket = none } else c in
    if not c.started || c.intentional_close
    then left
    else schedule_reconnect (record left { heartbeat_timer = false })

-- The timers of the client; a timer that is off does not fire.
unfoldable pub reconnect_fires : LiveClient → LiveClient
reconnect_fires c =
    if is_on c.reconnect_timer then connect (record c { reconnect_timer = none }) else c

unfoldable pub release_fires : Bool → LiveClient → LiveClient
release_fires is_closable c =
    let fired = record c { release_timer = false } in
    if not c.release_timer then c else if c.subscribers == 0 then stop is_closable fired else fired

-- The timer's number is kept in the field after it fired, which nothing but its clearing reads.
unfoldable pub stale_fires : LiveClient → LiveClient
stale_fires c =
    if not c.stale_timer
    then c
    else record c { shown = record c.shown { is_stale = true; last_error = some stale_updates } }

-- How the heartbeat's send ends on an open socket: sent, or an error is thrown.
abbrev heartbeat_on : Option ℕ → Bool → LiveClient → LiveClient
heartbeat_on none sent c = c
heartbeat_on (some s) true c = request (ping s) c
heartbeat_on (some s) false c = record c {
  shown = record c.shown { status = error; last_error = some heartbeat_failed };
}

unfoldable pub heartbeat_fires : Bool → Bool → LiveClient → LiveClient
heartbeat_fires is_open sent c =
    if not c.heartbeat_timer || not is_open then c else heartbeat_on c.socket sent c

abbrev playback_sync_on : Option ℕ → Bool → String → ℕ → Bool → LiveClient → LiveClient × Bool
playback_sync_on none is_open job_id position is_playing c = (c, false)
playback_sync_on (some s) is_open job_id position is_playing c =
    if not is_open
    then (c, false)
    else (request (playback_sync s job_id position is_playing) c, true)

-- `sendPlaybackSync` with its result; the flag tells whether the socket is open.
unfoldable pub send_playback_sync : Bool → String → ℕ → Bool → LiveClient → LiveClient × Bool
send_playback_sync is_open job_id position is_playing c =
    playback_sync_on c.socket is_open job_id position is_playing c

-- `syncSnapshot` that failed.
unfoldable pub snapshot_failed : String → LiveClient → LiveClient
snapshot_failed text c =
    if not c.started
    then c
    else record c { shown = record c.shown { last_error = some (sync_failed text) } }
