-- ===== src/Lib.antt =====
-- A model of the web client of the home camera system (client/src), with theorems about it.
--
-- The client is a web app that talks to a server on the camera box. It asks for data over HTTP
-- (client/src/lib/api.ts), hears of events over one WebSocket (client/src/lib/ws.ts), plays the
-- live video over WebRTC (client/src/lib/webrtc.ts, client/src/components/VideoTile.tsx), keeps a
-- session (client/src/lib/auth.tsx), polls the box's status (client/src/lib/useStatus.ts) and shows
-- push notifications through its service worker (client/src/sw.ts,
-- client/src/lib/swPushHandler.ts). The parts meet where one calls or subscribes to another: a 401
-- makes a request share the refresh of the session, a WebSocket close with code 1008 makes the
-- session ask who is logged in, the banner (client/src/components/ConnectionBanner.tsx) is told
-- each state of the socket, a click on a notification leads to its event, and what the status says
-- is worded by several views.
--
-- How the code is modelled:
--   * A module with variables, a React provider or a component's effects is a record of its state
--     and a function `step` over what may happen to it: the browser's events, timeouts, answers of
--     the server, and calls from the rest of the program. A handler is a function of its own with
--     the guards of the source in their order. Everything that is awaited comes back as an event,
--     so that any order of the answers is a list of events, and `run` follows such a list.
--   * Functions without state are functions by clauses.
--   * Answers of the server and the browser (HTTP status, parsed JSON, SDP text, the URL API, the
--     clock, the time zone) are arguments. Text is the list of its code points; parsed bodies and
--     video streams are numbers that are only compared.
--   * Times are whole milliseconds, or whole seconds where the file says so; measured values of the status have units fine enough for the
--     constants in the code (Health/Status.antt says which).
--
-- The files, and the code that each is about:
--   * Ws (client/src/lib/ws.ts): the socket, its subscribers, reconnects. Ws/Invariant,
--     Ws/Subscribers, Ws/Recovery, Ws/Outage and Ws/Opening hold the theorems.
--   * Banner (client/src/components/ConnectionBanner.tsx): the banner's state and timeouts;
--     Banner/Alarm, and Banner/Recovery, which runs the banner and the socket together.
--   * Api/Requests (req and _attemptRefresh of client/src/lib/api.ts) with
--     Api/Requests/SingleFlight and Api/Requests/Expiry, and Api/Cache (getCachedJSON) with
--     Api/Cache/Bounds, Api/Cache/NotModified and Api/Cache/Failure.
--   * Whep (client/src/lib/webrtc.ts): Whep/Ledger (the log of attempts), Whep/Candidates (what an
--     SDP offers), Whep/Warm (the connection that is made ahead), Whep/Connection (connectWhep)
--     with Whep/Connection/Settling and Whep/Connection/Release.
--   * Tile (client/src/components/VideoTile.tsx): the connect effect, its timers and retries;
--     Tile/Liveness and Tile/Retries.
--   * Auth (client/src/lib/auth.tsx) with Auth/Session, and Auth/Expiry, which runs the session and
--     the requests together. Toast (client/src/lib/toast.tsx) with Toast/Timers, Poll
--     (client/src/lib/useStatus.ts) with Poll/Readings, Badge (client/src/lib/badge.tsx), Telemetry
--     (client/src/lib/telemetry.ts) with Telemetry/Dwell, StreamQuality
--     (client/src/lib/streamQuality.ts), Timelapse (client/src/lib/timelapseClock.ts), EventDays
--     (client/src/components/EventList.tsx), Sentry (client/src/lib/sentryCat.ts), HourBand
--     (client/src/components/HourBand.tsx, with client/src/lib/identity.ts) with HourBand/Winner.
--   * Push: Push/Notification and Push/Receipts (client/src/lib/swPushHandler.ts), Push/Link with
--     Push/Link/Params and Push/Link/Reading, and Push/Click (client/src/sw.ts), Push/Subscription
--     (client/src/lib/push.ts).
--   * Health: Health/WatchState (client/src/lib/watchState.ts,
--     client/src/components/WatchRibbon.tsx), Health/Pipeline (client/src/lib/pipelineHealth.ts),
--     Health/Summary (client/src/components/LiveStats.tsx), Health/Verdict
--     (client/src/pages/settings/JetsonSection.tsx), Health/Pills
--     (client/src/components/VideoTile.tsx), Health/Wedge (client/src/lib/wedgeLadder.ts), on the
--     status of Health/Status (client/src/lib/types.ts).
--   * EventPage (client/src/pages/Events.tsx): the filters, EventPage/DayWindow (the hours of a day),
--     EventPage/State and EventPage/Handlers (the state and the handlers), EventPage/Page (the step
--     function) with a child for each of its theorems, and EventPage/Asking (filters and searches).
--   * Clip and Clip/Panes (the gestures of client/src/components/ClipModal.tsx) with
--     Clip/Neighbours, Clip/Returning, Clip/Panes/Settled and Clip/Panes/Advancing, on Zoom
--     (client/src/lib/pinchZoom.ts) and Zoom/Fingers. Boxes (`pickBoxesAt` of client/src/components/ClipModal.tsx and
--     client/src/lib/drawBoxes.ts) with Boxes/Search and Boxes/Matched.
--   * Card (client/src/components/EventList.tsx): the swipe on an event's card, with Card/Resting.
--   * Watch (client/src/pages/Watch.tsx): the docked and the full-screen video, Watch/Gestures (the
--     touch handlers), Watch/Steps (the events), with Watch/Chrome, Watch/Aiming and Watch/Dismissal.
--   * Zones (client/src/components/ZoneEditor.tsx with commitConfig of
--     client/src/pages/settings/DetectionSection.tsx): the editor and its handlers, Zones/Steps (the
--     events), with Zones/Shape, Zones/Drawing and Zones/Dragging.
--   * Cats (client/src/components/CatLayer.tsx): Cats/Outcomes and Cats/Interactions (what two cats
--     do), Cats/Solo (what one does), Cats/Frame (a frame) with Cats/Frame/Walls and
--     Cats/Frame/Company.
--   * Prelude: the library names that the files share, lists over the native numbers, text.
-- Each component has a module Tests with concrete runs.
--
-- Bounds and fuel: two loops are not structural, both binary searches. The fuel of the one in
-- Timelapse is the number of segments, and every round makes the range smaller by one at least. The
-- one in Boxes has 32 rounds, each of which halves the range, and its middle is the code's 32-bit one. The
-- pinch zoom and the cats are on whole numbers of units in which the constants of the code are whole;
-- products that round are parameters (Zoom). The hash of
-- Sentry works on 32-bit words, with the wrap-around written out and 32 rounds for the bits of a
-- word. The retry counter of the tile and the ids of sockets and timeouts are natural numbers; the
-- client's counters stay far below the size at which a double loses whole numbers.
--
-- Not modelled: the server and the detection worker (Python), rendering and styles, drawing on the
-- canvas itself, logging, the routes of the service worker's cache library, the one-line wrappers of
-- client/src/lib/api.ts, the probing of a clip that is still being written, and settings pages other
-- than the verdict and the zone editor.
pub mod Prelude
pub mod Ws
pub mod Whep
pub mod Api
pub mod Banner
pub mod Auth
pub mod Badge
pub mod Timelapse
pub mod Toast
pub mod Poll
pub mod Push
pub mod Sentry
pub mod StreamQuality
pub mod Telemetry
pub mod Tile
pub mod EventDays
pub mod EventPage
pub mod Boxes
pub mod Watch
pub mod Card
pub mod Zones
pub mod Zoom
pub mod Clip
pub mod Cats
pub mod Health
pub mod HourBand
