-- ===== src/Lib.antt =====
-- The ReadFlow web client: models of web/src and proofs about them.
--
-- ReadFlow turns text into narrated chunks; its web client loads a job over HTTP, merges streamed
-- events into it, and plays a bounded window of the rendered chunks through a media element.
--
-- Chunk.antt models features/reader/chunk-utils.ts, Api.antt the payloads of types/api.ts and
-- types/events.ts, Reader.antt and its children features/reader/reader-model.ts. Media.antt and its
-- children model the player: Media/Window.antt is lib/media-window.ts; the other files are
-- `useMediaSourcePlayer` in lib/media-source.ts, of which Media/Stream.antt is the append window and
-- its queue, Media/Eviction.antt the removal of played audio, Media/Playback.antt the flags that
-- events of the audio element set and the player state derived from them, Media/Seek.antt seeks.
-- Media/Element.antt is the life of a stream, its initial segment and attempts to play.
-- Library.antt and its children model features/library/library-model.ts, Library/Moves.antt and
-- Library/Page.antt with its children features/library/LibraryPage.tsx, Admin.antt the form of
-- features/admin/AdminPage.tsx and Admin/Queue.antt features/admin/QueueInspector.tsx, where requests
-- under way are lists in the page's state and events settle them by their place. Input.antt and its
-- children model lib/sheet-gesture.ts, hooks/useSheetDismissGesture.ts and
-- hooks/usePlaybackShortcuts.ts. Player.antt and its children model player/heard.ts,
-- player/auto-advance.ts, features/reader/transport.ts, player/player-store.ts (Player/Store.antt) and
-- player/PlayerProvider.tsx (Player/Provider.antt), where a handler, an effect or a settled request is
-- an event and Player/Provider/Steps.antt has the induction over events.
-- Reader/Text.antt is features/reader/reader-text.ts. Reader/Page.antt and Reader/Page/Events.antt are
-- the loading of features/reader/ReaderPage.tsx, Reader/Controls.antt, Reader/Handlers.antt and
-- Reader/Changes.antt its effects and controls over the player's store, which Reader/Session.antt runs,
-- Reader/Progress/Signature.antt the key of its memoized chunk states, and Reader/Waveforms.antt
-- hooks/useChunkWaveforms.ts. Conveyor.antt and its children model lib/waveform-timeline.ts
-- (Conveyor/Slots.antt) and the searches, gestures and scale of features/reader/conveyor-physics.ts.
-- State.antt and its children model state/reader-settings.ts, state/store.ts and hooks/useTheme.ts.
-- The records of a component that is larger are in a child that its module passes on.
-- Live.antt models the connection of lib/live-client.ts, with sockets as numbers and timers that fire
-- as events.
-- The reader's `build_stream_manifest` makes the chunks that the append window scans;
-- Media/Stream/Takes.antt runs the two one after the other. The ends of waits of the append
-- loop come in any order and for any stream in Media/Stream/Reach.antt, and Media/Stream/Bounds.antt and
-- Media/Stream/Late.antt are about those that are late.
--
-- Times are natural numbers of thousandths of a second where the code has floating-point seconds;
-- rounding is not modelled. `Map` and `Set` are lists (Common/Sets.antt), `Array.prototype.sort` is
-- a stable insertion sort (Common/Sort.antt). Asynchronous code is cut where it waits, and how a
-- wait ends is an argument; Media/Stream/Reach.antt has the steps that can follow one another. The
-- loop of `jobsInFolders` runs for as many passes as there are folders and one more, which is proved to
-- be enough; a bisection runs for at most as many rounds as there are slots, which is enough; the walk
-- of `folderPath` takes its number of steps as an argument, and the depth of the folder and one more are
-- enough where parent links have no cycle. Folder positions are natural numbers.
-- The gestures are over any numbers with an order (Conveyor/Number.antt), of which only asymmetry is
-- assumed. The browser's storage and JSON are parameters of the settings; the texts of JSON and the
-- identity of objects are parameters of the app's store.
--
-- The building of the library's tree is cut at a depth, which is enough where parent links have no cycle.
-- The order of names and the search in texts are parameters of the library.
--
-- Not modelled: the server, drawing, HTTP, the browser's media objects, and the rendering of React
-- components; of their state, that of `useMediaSourcePlayer`, `PlayerProvider`, `useChunkWaveforms`,
-- `ReaderPage`, `LibraryPage`, `AdminPage`, `QueueInspector` and the settings sheet's gesture is
-- modelled.
pub mod Common
pub mod Chunk
pub mod Api
pub mod Reader
pub mod Media
pub mod Library
pub mod Player
pub mod Admin
pub mod Input
pub mod Live
pub mod Conveyor
pub mod State
