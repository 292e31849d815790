-- ===== src/Lib.antt =====
-- The logic of the web client (web/src) and of the server (server/src), as a model with theorems.
--
-- The client keeps what it knows in one store (web/src/store/index.js). A socket brings the chat's
-- history and its messages, each with translations that the server pushes; the translation sync
-- (web/src/chat/translationSync.js) asks the server in batches for the translations that do not
-- come. What is in no need of a translation it tells by the script of the text
-- (web/src/chat/script.js). The lists of who is online become system messages of the chat
-- (web/src/chat/systemMessages.js). Apart from the chat, the socket keeps a live operation board
-- (web/src/components/OperationBoard), and the voices of a battle are set to the server's clock
-- (web/src/components/Battle). The server keeps the live board and relays what clients do to it
-- (server/src/operation-boards), behind a limit of the requests of each socket
-- (server/src/realtime/ws-rate-limit.service.ts). A countdown of the server starts a while ahead, so
-- that slow clients hear it whole, and shares a lock with the rallies (server/src/realtime).
--
-- Files:
--   Prelude        tests, lists, sets of keys, dictionaries in the order of a JavaScript `Map`,
--                  whole numbers and their order, stable sorting by a key
--   Chat/Message   a message and `getChatMessageKey`
--   Chat/Merge     `mergeChatMessages`: the union by key, the order of time, the two limits
--   Chat/Translations  `splitTranslations`, `mergeTranslationMap`, `withoutKeys`
--   Chat/Store     `pruneTranslationState` and the store's chat actions
--   Chat/Script    `detectScript`, `unambiguousLang`, `effectiveLang`
--   Chat/Sync      `createTranslationSync`: State (its variables, the timers, the clock, what went
--                  out), Batch (`enqueue` to `runBatch`), Retry (`settle`, `fail`, the retries),
--                  Events (the handlers), Steps (runs of events and timers in any order)
--   Chat/Online    `createOnlineTracker` and `diffOnline`
--   Chat/Display   `selectDisplay`
--   Rally          the rally groups of the store under the socket's events
--   Board/Path     `compactOperationPath` on texts as lists of UTF-16 units
--   Board/Socket   the state and the handlers of `useOperationBoardSocket`
--   Audio/Player   the player that countdownPlayer.js and rallyGroupPlayer.js each contain, over a
--                  `Plan` (the interface to a schedule's guards and slots)
--   Audio/Plans    the plans of a countdown and of a rally
--   Server/Window, SocketLimit  `WsRateLimitService`: the requests of an event of a socket in a window
--   Server/BusyLock  `BusyLockService`
--   Server/Countdown  the countdown of `RealtimeGateway` and the lock it shares with rallies; Laws (each
--                  event), Runs (what holds in all runs)
--   Server/Negotiation  `ReadyNegotiationService`
--   Server/RallyGroups  `RallyGroupsService`: the rows, the order of members and the schedule; Start
--                  (the calls that go on after an await), Calls (runs of all calls), Laws, Numbering,
--                  Changes, Members, Runs (proofs)
--   LiveBoard      `OperationBoardsGateway`: Element (what an element may be), State (what it keeps),
--                  Members (the handlers of participants), Gateway (those of the board, and all
--                  behind the rate limit), Room (what a client in the room receives)
--   */Laws, Merge/Append, Sync/{Frame,Pacing,Bounds,EventFrame,Disposal},
--   Player/{Timing,Silence,Sync}, Element/Validation, Room/{Follows,Refusals}  proofs
--   */Examples     concrete runs
--
-- Correspondence. A state of JavaScript is a record, an action or a handler is a function from
-- state to state, and a run of the sync is a sequence of steps: an event, or a timer that is due.
-- An object with ids as keys is an association list in the order of insertion. An id is a natural
-- number, times are milliseconds, and a timer is its handle, its due time and what it does. The
-- answer of a request is an event with the number of the request, which stands for the identity of
-- the object `inFlight`.
-- The player's times are whole milliseconds where the code has seconds with fractions, and its
-- awaits are events that may come at any time. A schedule under way is its number, what it waits
-- for and its parameters.
--
-- Bounds and fuel. Loops go through a list and are structural recursions, but for the two of
-- `compactOperationPath`: each has as much fuel as there are steps in the path, which it never
-- uses up. Numbers are unbounded naturals; the code's numbers are counts and times far below 2^53.
--
-- The server's handlers return what they leave, what they send and their answer; what a handler awaits
-- comes as an event of its own, so that anything may happen in between. 0.95 is 95 hundredths, and the
-- rank of a percentile is the same as with fractions. The rows of the rally groups are a list in the
-- order of creation. A transaction is one step, and so is a query with what follows it up to the next
-- await, or two reads in a row. What a call does after such a step is a work under way, which may go
-- on or fail at any time. The round trips of the probes are signed, as the clock may be set back.
--
-- Parameters. `Date.parse` is an argument, `none` where it gives NaN, and so is the match of a
-- path with its regular expression, `trim`, the length of an element as JSON, and the test of a
-- background's URL; on the client, elements and backgrounds of the board are of any type. The
-- order of a sort by time is the stable one that the language promises.
--
-- Not modelled: rendering and hooks of the user interface, the server's database, accounts,
-- pages and translation, the messages about rally groups, the calls of HTTP, sockets, speech and
-- audio of the browser, and messages whose properties are null or of no documented type.
pub mod Prelude
pub mod Chat
pub mod Rally
pub mod Board
pub mod LiveBoard
pub mod Audio
pub mod Server
