-- ===== src/Live/Tests.antt =====
-- The live client through a release, a second retain and the late close of the first socket.
use readflow.Common.{◌≡◌, refl, true, false, List, [], ◌∷◌}
use readflow.Live.{on_close, release_fires, retain, connect, release, stop, on_open, mark_activity}
use readflow.Live.Connected.{
  LiveEvent, handle, run, new_client, IsLive, run-IsLive, on_close-old_socket, retained, opened_at,
  released, release_timeout,
}

abbrev reopened : List LiveEvent
reopened =
    retained ∷ opened_at 0 10 ∷ released ∷ release_timeout true ∷ retained ∷ opened_at 1 20 ∷ []

run-IsLive_example : IsLive (run reopened new_client)
run-IsLive_example = run-IsLive reopened

on_close-old_socket_example : (on_close 0 (run reopened new_client)).heartbeat_timer ≡ false
unfolding run handle retain connect release release_fires stop on_open mark_activity
on_close-old_socket_example =
    (on_close-old_socket (run reopened new_client) 1 0 refl refl refl refl refl).1
