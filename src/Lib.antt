-- ===== src/Lib.antt =====
-- The kprobe console (console/src), with the search of its documentation: models of their components,
-- and what holds of them.
--
-- The console shows kernel events that the API stores and streams. `useConnection` fetches the stored
-- events, keeps a WebSocket open and holds a bounded list of messages; the pages turn each message
-- into a `KernelEvent` by `mapWireEvent` and show it in a table (Stream), as a graph of causes
-- (Graph), along a time line (Timeline) or, for recorded incidents, as a replay (Replay). The settings
-- are kept by the browser and by the API.
--
-- Files and sources:
--   Base, Base/*        helpers: tests and equality classes, arrays and maps of the language as lists
--                       and association lists in the order of insertion, and the stable sort
--   Json, Json/*        values of JSON and the numbers of the language; how numbers are read and
--                       printed, `JSON.parse` and `JSON.stringify` are arguments
--   Event               console/src/types/events.ts, and fmtDur, isSlow and EVENT_TYPES of
--                       console/src/lib/mockData.ts
--   Wire, Wire/*        console/src/lib/wireEvent.ts: mapWireEvent is map_wire_event
--   Connection          console/src/hooks/useConnection.tsx: the state and the refs of the provider are
--                       the record Connection, hydrateHistory is hydrate, scheduleReconnect, connect and
--                       the callbacks of the socket are the functions of these names, `step` is one
--                       callback and `run` a sequence of them
--   Graph, Graph/*      console/src/pages/Graph.tsx: getLayer, getSeverity, shouldPromote, inferEdges,
--                       sanitizeGraph, fallbackLayout, layoutDAG and getPathIds; dagre and the order of
--                       localeCompare are arguments
--   Debug, Debug/*      console/src/lib/debugAnalysis.ts: analyzeDebugGraph is analyze_debug_graph, and
--                       its helpers have the names of the source
--   Incident            console/src/pages/Replay.tsx: the types of incidents and the three of INCIDENTS
--   Replay, Replay/*    console/src/pages/Replay.tsx: the page's state, its animation, handlers and keys
--   Session, Session/*  console/src/lib/auth.ts, console/src/App.tsx and
--                       console/src/components/RequireAuth.tsx: the token, and what a path shows
--   Feed                how Stream.tsx, Graph.tsx and Timeline.tsx read the messages of the connection
--   Causal              console/src/lib/api.ts: fetchJSON and fetchCausalChain on a reply
--   GraphPage, GraphPage/*  console/src/pages/Graph.tsx: the state of the page; applyGraph,
--                       loadCausalChain with its timer and replies, the effects and the handlers;
--                       GraphPage/Drawing is what `renderGraph` shows, as data, and
--                       GraphPage/Highlight what holds of it
--   Timeline, Timeline/*  console/src/pages/Timeline.tsx: the state, the effects and the handlers of the
--                       page; Timeline/Canvas is what `draw` paints, as data
--   Settings, Settings/*  console/src/pages/Settings.tsx: how settings are loaded, saved and reset
--   Login, Login/*      console/src/pages/Login.tsx: the form, and how an attempt to log in ends
--   Shell, Shell/*      console/src/components/Shell.tsx: the titles of the views and the keys
--   MockData, MockData/*  console/src/lib/mockData.ts: generateEvent is generate_event
--   Search, Search/*    www/src/components/SearchModal.tsx: the search of the documentation site
--   Proto/*             console/src/generated/kprobe.ts: a module for each message type, with create,
--                       internalBinaryRead (its switch is read_field) and internalBinaryWrite.
--                       Proto/Reader has what they share, Proto/Runtime the library as a parameter,
--                       Proto/Codec and Proto/Contents all types at once, Proto/Laws and Proto/Foreign
--                       what holds of them; Proto/Services has the services and, of
--                       console/src/generated/kprobe.client.ts, the calls of the clients. No page
--                       imports the generated files yet
--   Stream, Stream/*    console/src/pages/Stream.tsx: the page's state, its effects and handlers
--
-- A component of React is a record of its state and its refs; a callback is a function on the record,
-- followed by the effects whose dependencies it changes. What a callback of an earlier render holds
-- (the key handler of the replay page) is written out as the state of that render. Any order of
-- callbacks is a list of actions or a term of `Reach`.
--
-- Numbers: times, counts and ids are natural numbers; the numbers of JSON are `Num`, the integers with
-- NaN and the infinities, so fractions are not modelled. The playhead is counted in tenths of a
-- microsecond and speeds in tenths, which makes each step of the animation exact. The times of the time
-- line are whole nanoseconds: the product of a view with a zoom factor, and the time under a click, are
-- arguments, so what holds of them holds however they are rounded.
--
-- Fuel: `walk_queue` has one unit for each edge and one for the start, and each id enters the queue
-- once by an edge or as the start, so the queue is empty before the fuel is. `ceil_sqrt_from` has its
-- argument as fuel, and no square root is larger than that.
--
-- The reader of a message has one unit of fuel for each byte that is left and one more: each round
-- reads a tag, and a tag has at least one byte.
--
-- Times are exact integers. The nanoseconds of the epoch are above 2^53, where the doubles of the
-- language are further apart than 1: a timestamp that was read is an integer all the same, and
-- comparisons are exact, but sums with it are rounded there, which is not modelled.
--
-- Not modelled: markup, styles, the position of scrolled tables and the texts of the boxes that d3
-- draws; where its lines end; the loop that paints the ruler of the time line; the runtime of the
-- protocol buffers and the transport of the calls; the top bar, the side bar and the small components;
-- the other languages of the repository (engine, api, replay, probe) and the rest of the site under
-- www.
pub mod Base
pub mod Json
pub mod Event
pub mod Wire
pub mod Connection
pub mod Causal
pub mod Debug
pub mod Graph
pub mod GraphPage
pub mod Timeline
pub mod Settings
pub mod Login
pub mod Shell
pub mod MockData
pub mod Search
pub mod Incident
pub mod Proto
pub mod Replay
pub mod Feed
pub mod Session
pub mod Stream
