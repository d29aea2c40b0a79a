-- ===== src/Lib.antt =====
-- The message broker of pi-mesh, the program that lets coding sessions on one machine or several
-- talk to each other. A session connects to the broker by a socket, says `hello` with an alias and
-- the rooms it wants, and from then on sends frames, each a line of JSON, that the broker relays,
-- stores for aliases that are away, or refuses.
--
-- Parts, and the files that model them:
--   Shared/Config          src/shared/config.ts: the constants.
--   Shared/Reservations    src/shared/reservations.ts: normalizePath, pathMatchesReservation,
--                          isReservationExpired, findConflict.
--   Protocol/Frame, Names  src/protocol/envelope.ts: `MeshFrame`, its closed sets, `buildFrame`,
--                          the tests of aliases and rooms, `effectiveCaps`.
--   Dict                   JavaScript's `Map`, an association list in the order of insertion.
--   Broker/State           src/broker/state.ts: `BrokerState` and the records it holds.
--   Broker/Lease           src/broker/lease.ts: `LeaseTable` (claim, release, snapshot, verify, get)
--                          and, in Lease/Epoch, the persisted epoch.
--   Broker/Rooms           src/broker/rooms.ts: joinRoom, leaveRoom, detachFromRooms,
--                          broadcastToRoom, peersSnapshot.
--   Broker/Mailbox         src/broker/mailbox.ts: enqueueMailbox, flushMailbox, purgeAllExpired.
--   Broker/Ratelimit       src/broker/ratelimit.ts: checkRate and its token buckets.
--   Broker/Policy          src/broker/policy.ts: matchPattern, ruleMatches, evaluatePolicy.
--   Broker/World           src/broker/broker.ts: writeFrame, sendTo, sendError, notifyDropped,
--                          broadcastReservations, closePeer.
--   Broker/Hello           src/broker/broker.ts: handleHello.
--   Broker/Relay           src/broker/broker.ts: sendAck, and the callbacks of the writes.
--   Broker/Routing         src/broker/broker.ts: routeMsg, routeCapMsg, routeOnlineOnly,
--                          routeReplyAll, routeReplyTargets.
--   Broker/Control         src/broker/broker.ts: handleCtl, handleCtlAck.
--   Broker/Leasing         src/broker/broker.ts: handleClaim, handleRelease, handleLeaseStatus.
--   Broker/Dispatch        src/broker/broker.ts: dispatch.
--   Broker/Steps           src/broker/broker.ts: serverHandler and the timers of createBroker, as
--                          steps on the state of the broker, and their sequences.
--   Protocol/Caps          src/protocol/task-package.ts: capTargetName; src/shared/config.ts:
--                          normalizeCaps.
--   Protocol/Json          the values that `JSON.parse` returns.
--   Protocol/Shapes        src/protocol/envelope.ts: isValidRefPath, isValidReservations,
--                          isValidIso, isValidCaps, isValidProto, normalizeAlias,
--                          hasForbiddenPersistedKey.
--   Protocol/TaskPackage   src/protocol/task-package.ts: validateTaskPackage.
--   Protocol/Check, Rules, KindRules, Validate
--                          src/protocol/envelope.ts: validateFrame, as a list of rules of which the
--                          first that does not hold is the verdict, and parseFrameLine.
--   Protocol/Decoder       src/protocol/frames.ts: encodeFrame and FrameDecoder.
--   Client/Pending         src/client/pending.ts: PendingReplies with its timers.
--   Client/Session         src/client/client.ts: onFrame with the tables that it changes, the guard
--                          against repeated answers, resolveSendRoom.
--   Extension/Batcher      src/extension/batcher.ts: InboundBatcher, bypassesBatch, and how a batch
--                          is delivered.
--   Extension/Inbox        src/extension/deferred-inbox.ts: DeferredInbox.
--   Extension/Guards       src/extension/guards.ts: MeshGuards.
--   Extension/Injection    src/extension/injection-guard.ts: InjectionGuard, and the answers of
--                          src/extension/index.ts to it.
--   Cli/Args               src/cli/args.ts: parseArgs.
-- The decoder hands its lines to `parseFrameLine`, whose frames the broker dispatches and the client
-- routes; there replies resolve what `PendingReplies` awaits, and other messages go through the
-- batcher or the deferred inbox into the session. What a session sends passes the guards first.
-- World/Stable, Relay/Keeps, Routing/Keeps, Control/Keeps, Hello/Stable, Steps/Keeps and Steps/Runs
-- carry a property of the broker's state through every handler, so that an invariant of all
-- sequences of events is proved from what joins, leaves, hellos and closings do to it.
-- A function keeps its name, in snake case, and returns the changed table beside its result.
--
-- Choices of the model:
--   * A handler reads the clock once: `Date.now()` is an argument, and all its calls within one
--     handler give the same time. Times carried as ISO text are their milliseconds; the field `ts`
--     of a frame is left out. The lease table's own clock and `nowIso()` are two arguments.
--   * A socket is a number. `destroy` puts it among the destroyed ones; the `close` event comes
--     later, as a step of its own. A write is queued with its callback, and the callback runs when
--     the write ends. It fails at once where the code fails at once: on a frame over the limit and
--     on a socket that is destroyed or that the other end has half closed. A write that takes too
--     long ends by its own step.
--   * A peer's record is an object that its socket, the table and the callbacks share; the model
--     keeps the table's copy, and tells a record by its alias and its socket.
--   * A fan-out waits for its writes by `Promise.all`: a batch counts those still waiting, and the
--     loop that starts them as one more, so that the acknowledgement is sent at the end of the loop
--     or of the last write. It runs within that step instead of in a microtask after it.
--   * The steps of the broker take frames as parsed, or as the error with which the parser refused
--     a line.
--   * Random ids, the length of a frame as JSON, SHA-256 and `localeCompare` are parameters.
--   * Tokens are counted in units of 1/60000 of a token, in which the refill of the code is exact;
--     the code computes it in floating point.
--   * The fuel of `print_from` is the number to be printed plus one, and each round divides by ten.
--   * The loop of `FrameDecoder.push` has one round for each character of its text and one more; each
--     round but the last takes a newline off, so they suffice. A chunk is a string or a buffer; what
--     `toString("utf8")` makes of the bytes of a buffer, each buffer alone, is a parameter, and a
--     text is a list of characters. What `toLowerCase` makes of a path is one too.
--   * The persisted epoch is a double, which is exact up to the largest safe integer: the model gives
--     no result where the file or the next epoch is a number beyond.
--   * The timers of the client and the extension are armed and cleared as the code does it, and fire
--     as steps in any order. Those of `PendingReplies` carry quarters of a millisecond.
--   * What `emit` and the promises of waiters get is recorded. The waiters of the client's requests
--     are given; their timers are not modelled.
--   * The callbacks of the batcher, the deferred inbox and the awaited replies are recorded in the
--     order of their calls. Texts that only a person or an agent reads are left out.
-- Not modelled: the listening sockets and the file lock, the reading of configuration and policy
-- files, the connection of the client and its requests, the commands of the command line, the
-- tools and the rendering of the extensions.
pub mod Prelude
pub mod Dict
pub mod Shared
pub mod Protocol
pub mod Broker
pub mod Client
pub mod Extension
pub mod Cli
