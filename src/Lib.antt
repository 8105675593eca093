-- ===== src/Lib.antt =====
-- persistent-harness keeps agent sessions alive in a supervisor process. Clients, workers and session
-- actors speak to the supervisor in lines of JSON over pipes and sockets; the supervisor keeps what it
-- has to remember in SQLite; and its scheduler starts jobs at the times that their schedules name.
-- This library models parts of that program, each as far as the code of src/ decides it.
--
-- Prelude: the names of the standard library that all modules use, Boolean tests on numbers, lists over
--   the native numbers, `Outcome` (a value or an error that is thrown), and the statements of SQL on
--   the rows of a table (Prelude/Table).
-- Framing (src/framing.mjs, src/session-actor.mjs): `JsonLineDecoder` and `PiRpcLineDecoder` as a record
--   of the bytes held and their number, `push` with its rounds (`push`, `push_rpc`), `#append`
--   (`append`), `finish`, and `encodeFrame` (`encode_frame`). Stream reads the bytes one at a time, as
--   the specification; Chunks and RoundTrip compare the decoder and the encoder with it.
-- Cron (src/cron-schedule.mjs, src/cron-launch.mjs, src/cron-store.mjs, src/cron-scheduler.mjs):
--   Schedule has `normalizeCronSchedule` and `nextCronRunAfter`, Launch the launch policies, Store the
--   class `CronStore`. Store/Schema has the two tables and their constraints, Store/Jobs, Claims, Runs, Checks
--   and Notices a function per method, which takes the tables and returns them changed, or an error,
--   after which the transaction is rolled back. Store/History makes a sequence of calls of them. Sound
--   has the invariant of the tables, Life what happens to a run, to a job that is due and to a check
--   that keeps failing. Scheduler has a `tick` of `CronScheduler`, which calls the store and collects
--   what it starts; Room, Capacity, Taken and Launched are about how much it starts and which runs these are.
-- Retry (src/inference-retry.mjs): `evaluateInferenceRetry`, the decision whether a failed inference is
--   made again, from a snapshot of what is known of the attempt: Report projects the transport's report,
--   Checks has the tests and Decision their order; Fenced has what a retry requires, and
--   Repeated what is enough for one.
-- Notification (src/notification-store.mjs): Notices has the methods on notices, Deliveries `claim`, Closures
--   `claimClosures`, Receipts `receipt`, Calls a sequence of them, Settled what happens to a notice that is
--   closed, and Bounds how much a call claims and how often a lease is used.
-- Watermark (src/source-watermark.mjs): `normalizeSourceWatermark` and `followsSourceWatermark`; Order
--   has what they promise.
-- Js: texts of JavaScript as their UTF-16 code units, and the values of JSON, which most of what follows
--   reads.
-- ChildPolicy (src/child-policy.mjs): Models checks the models and the skills of a request, Launch has
--   `resolveChildLaunchPolicy` and Find `findModels`. Granted is about what a child is given, Distinct
--   and Order about models and what is found.
-- Conversation (src/conversation-birth.mjs): `conversationBirth` and the state of
--   `ConversationBirthClock`, with `reset` and `next`; Clock is about the births that it gives.
-- Inputs (src/input-location.mjs, src/input-images.mjs): Locations has `normalizeInputLocation`, Jpeg and
--   Images `normalizeInputImages` with the sizes of images. Scanned, Attached and Normal are about the
--   loop over a JPEG, the images and the locations.
-- Protocol (src/protocol.mjs): Reading has the checks that the validators are made of, Sessions,
--   Children, Settings, Records, History, CronFields, CronJobs, Notices and Submitting the
--   validators, Requests `validateRequest`, which finds the validator of a type, and Server the
--   frames of the server with `validateServerFrame`. A validator takes the parameters as a value of
--   JSON and returns the entries of its object, or a record that is made into one. Checked, Bounds,
--   Cursors, Submissions, Searches, Accepted and Answered are about them.
--
-- Parameters: reading a frame's text (UTF-8 decoding, `JSON.parse`) and writing it (`JSON.stringify`),
-- with the laws of `Codec` for the round trip; `Calendar` for Intl, Date and croner; `lower` of
-- SQLite, `isDeepStrictEqual` and the code units of a string for the store; the two classifiers of an
-- error for the retry decision; the hash of a notice's key and the ids that `randomUUID` gives;
-- `path.resolve`, `Buffer.byteLength` and the text of a number for watermarks; `String` of a value and
-- `toLowerCase` for child policies; the hash that names a run; `Date.parse`, the dates that
-- `toISOString` writes, and the base64 of `Buffer` for the protocol and its inputs. The scheduler's
-- clock is an argument `now` of each call.
--
-- Bounds: recursion is structural. Only the loop over a JPEG (`scan`) has fuel, one round more than there
-- are bytes, of which each round takes one at least. A number of JSON is a fraction of a natural number
-- and a power of two, with its sign. Times are natural numbers of milliseconds,
-- so a time before 1970 is not represented, and `now - 1` at 0 is 0. An integer of JavaScript is a
-- natural number, with the limits that the code tests.
--
-- Not modelled: the messages of errors, `supportedThinkingLevels`, `ConversationOrder`, the rendering
-- of locations, the metadata of pasted images, the texts that an actor is given, the supervisor, its
-- sessions and actors, the conversation store and its projections, the processes of kernels and
-- workers, the scheduler's timers and its other methods than `tick` and `#startCheck`, the ownership
-- and the episodes of a session family in the notification store (`family`, `noteUserInput`,
-- `bindOrigin`, `noteContinuation`, `settled`, `observe`), the migrations of both schemas, and the
-- operational counts of the cron store.
pub mod Prelude
pub mod Js
pub mod Framing
pub mod Cron
pub mod Retry
pub mod Notification
pub mod Watermark
pub mod ChildPolicy
pub mod Conversation
pub mod Inputs
pub mod Protocol
mod Tests
