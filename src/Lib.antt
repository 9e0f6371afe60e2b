-- ===== src/Lib.antt =====
-- raft-in-motion: a page that shows a Raft cluster at work. The server (Go) runs simulations and sends
-- the logs of its nodes over a WebSocket; the frontend (TypeScript, React) queues them, shows one
-- every 750 ms, and hands each to the panel of the server that it is about.
--
-- The program's parts, and where they are modelled:
-- - Value: the JavaScript values that logs are made of, and `JSON.parse`'s results.
-- - Types.Enums, Types.Logs: frontend/src/types/raftEnums.ts and raftTypes.ts. Interfaces are records,
--   the union `Log` is a data type, and `fields` is the object that a log is at run time.
-- - LogUtils, StateUtils: frontend/src/lib/logUtils.ts and stateUtils.ts, with the colours of
--   frontend/src/components/styles/logStyles.ts.
-- - WsService: frontend/src/services/wsService.ts and what it drives of the browser's WebSocket.
-- - LogsContext: frontend/src/context/logsContext.tsx. Parse is parseLog; Page is the state of
--   LogsProvider (its refs, its React state, and the sockets, services and intervals that exist) with
--   one function for each callback, handler and timer, and `step` over all that can happen to it.
-- - LogsDispatcher: frontend/src/context/logsDispatcher.tsx. `process_logs` is the effect that hands
--   logs to callbacks; Inbox is useServerLogs, with the renders of the page as events.
-- - ServerInstance, LogProcessorService: frontend/src/components/serverInstance.tsx,
--   components/raft/raftVisualizer.tsx and services/logProcessorService.ts: the panel of one server.
-- - Dashboard: frontend/src/app/page.tsx, the dispatcher together with the panels.
-- - SimulateButton, ActionBar: frontend/src/components/ui/simulateButton.tsx and actionBar.tsx. `settle`
--   renders and runs the effect again as long as one of its dependencies has changed.
-- - EventHistory, GridContext, PixelGrid: frontend/src/components/eventHistory.tsx,
--   context/gridContext.tsx and components/pixelGrid.tsx; PixelGrid.Draw is the drawing of a frame.
-- - MediaQuery: frontend/src/context/mediaQuery.tsx, and in MediaQuery.Sizes the sizes that components
--   take from it. TransitionLink: frontend/src/lib/tansitionLink.tsx.
-- - Raft: internal/raft. The state of a node is in Raft, its handlers of RequestVote and AppendEntries
--   are in Raft.RequestVote and Raft.AppendEntries (request_vote.go, heartbeat.go), elections and what a
--   leader does with replies in Raft.Leader (chunab.go, heartbeat.go), commitChanSender in Raft.Commit,
--   the election timer and Kill in Raft.Timer, and a restart from storage (persist.go) is `make`.
--   Raft.Elections puts the nodes of a cluster side by side, and Raft.Trigger has the lock and the
--   channels of a leader, with the moves of its goroutines.
-- - RpcServer: internal/raft/rpc_server.go, the table of connections and the proxy that drops calls.
-- - Kv: internal/kv. The store and the commands are in Kv; Kv.Service has the handlers and the updater
--   of internal/kv/server/server.go as steps between their locks, and Kv.KvClient the search for the
--   leader of internal/kv/client/client.go. Kv.Log is the store as a function of the commands.
-- - Logger: internal/logger/zlog.go, the memory logger's ring; Logger.Queue is the queue that it is.
-- - Client: internal/client/client.go, the loops of a client turn by turn, and in Client.Handler the
--   handler of internal/ws/handler.go. Client.EndToEnd joins them to the page.
-- - Harness: internal/harness/harness.go, its ports and its search for the single leader; in Nodes, which
--   services are connected, alive and linked, with what a simulation does to them.
-- - Examples: the theorems at concrete inputs.
--
-- How the parts interact: a socket event calls a callback of WsService, which calls the page; the
-- interval moves logs from the queue to `logs`; a render with new logs runs the effect of the
-- dispatcher, which calls the callbacks of the inboxes; a panel processes the last log of its inbox.
-- The action bar calls connect and disconnect of the page and follows its status. On the server, a
-- request for the WebSocket runs a simulation, whose logs go into the memory logger; the loop of the
-- client sends them in arrays of ten at most. A put or a get is submitted to the Raft node of its
-- service, and answered when the updater takes the committed entry from commitChan.
--
-- Conventions: numbers that the program keeps are natural numbers; a number in a log is an integer. A
-- React state update takes effect at once, and an effect is a function that runs after a render in
-- which a dependency changed. Refs to browser objects are indices into lists of these objects. There
-- is fuel in two places: the rounds of `settle`, of which three are enough, as ActionBar.Settle shows,
-- and the tries of `send` in Kv.KvClient, an endless loop, for which Kv.Leader says how many it takes
-- to find a leader. Parameters of the model: the endpoint, whether `new WebSocket` throws, the time, random draws
-- and the radius of the circle in PixelGrid.
--
-- A node of Raft handles one call at a time, since each handler and each goroutine holds its lock; the
-- time, the term of a round of heartbeats and the number of entries sent are arguments. A term does not
-- overflow. The commands of its log are of any type.
--
-- A service or a client of the server is a sequence of events, each what a goroutine does between two
-- locks or in one turn of its loop. A panic in a handler of HTTP ends that handler alone, as net/http
-- recovers it; the service goes on. json.Unmarshal is a parameter; what json.Marshal writes is taken
-- as the value that the page's `JSON.parse` makes of it, and a WebSocket keeps the order of messages.
--
-- Not modelled: markup, styles, animations and the footer; console and log output; the listener of
-- net/rpc, HTTP, gob and zap; the sleeps and sequences of the simulations; the checks of
-- the harness that only log; when the timer of a leader's heartbeats fires, which can be at any time.
pub mod Prelude
pub mod Value
pub mod Types
pub mod StateUtils
pub mod LogUtils
pub mod WsService
pub mod Logger
pub mod TransitionLink
pub mod MediaQuery
pub mod Harness
pub mod RpcServer
pub mod Kv
pub mod Client
pub mod LogsContext
pub mod LogsDispatcher
pub mod SimulateButton
pub mod ActionBar
pub mod LogProcessorService
pub mod ServerInstance
pub mod Dashboard
pub mod EventHistory
pub mod GridContext
pub mod PixelGrid
pub mod Raft
pub mod Examples
