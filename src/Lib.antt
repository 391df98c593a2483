-- ===== src/Lib.antt =====
-- mail-time: a mail queue that several server processes share
-- ===========================================================
--
-- The parts, and the files that model them:
--   * A letter (a task), the updates made to it and the lease of a worker: `Task`, for index.js
--     (`__withLease`, `__leaseRemoveOpts`) and helpers.js (`isSendClaimUpdate` and below).
--   * The contract of the storage, which index.js relies on and every adapter has to keep: `Queue`.
--     A call is an atomic change of one row under a guard; it answers with a Boolean or throws, and a
--     call that threw may have been carried out. `Contract` of `Adapters.Mongo`, of
--     `Adapters.Postgres` and of `Adapters.Redis.Tagged` is where an adapter meets it. `Reports` is
--     what a storage promises that never answers that it changed nothing when it could not be reached.
--   * The MongoDB adapter: `Adapters.Mongo`, for adapters/mongo.js. The driver's collection is a
--     parameter; `Laws` says of it what the MongoDB manual says. `Adapters.Rows` has the lists of rows
--     behind it.
--   * The PostgreSQL adapter: `Adapters.Postgres`, for adapters/postgres.js. The table is a parameter,
--     with the rows of the instance's prefix; a `WHERE` clause is a predicate.
--   * The Redis adapter: `Adapters.Redis`, for adapters/redis.js: the guards on a letter that was read,
--     `Keys` (`__getKey`, `__applyPrefix`, `parseUuidFromKey`), and `Untagged` the methods without hash
--     tags. `Client` is the parameter, with the laws of the Redis manual on transactions and watched
--     keys; `Transaction` has a read and the write that follows it. A method takes what the other
--     processes do between the two as a function on the store. With hash tags, a method runs a script
--     (`__runScript` is `Runner`): `Scripts` has those that change one letter, `Scan` the one of
--     `iterate`, and `Tagged` the methods. `Commands` is the parameter there: Redis runs a script
--     whole, and `recode` is what `cjson` makes of a letter that it decodes and encodes.
--   * `Adapters.Setup` has the constructors of the three queues and their prefixes; `Mongo.Indexes` and
--     `Postgres.Schema` how the indexes and the table are made, `Postgres.Columns` how a row is read;
--     the keys of Redis with hash tags are in `Adapters.Redis.Keys`, the slots that they are in in its `Slots`.
--   * `Adapters.Ping` has the pings of the three adapters and of the instance.
--   * Addresses: `Helpers.Address`, for helpers.js (`extractEmail`, `toAddressList`,
--     `filterAddressField`); equality of options: `Helpers.Equality` (`equals`);
--     merging them: `Helpers.Merge` (`deepMerge`); HTML: `Helpers.Escape` (`escapeHtml`). `Presets` is presets.js.
--   * An instance: `MailTime`, for index.js. `State` has the fields; `Configure` how the
--     constructor sets them, after its `Checks` and with the `Scheduler` that it makes;
--     `Recipients` the accepted and rejected recipients (`___trackAcceptedRecipients`, `___finalizeRejected`); `Transports` the
--     rotation and verification; `Pool` the bounded pool (`createPool`); `Errors` the retries
--     (`___handleError`); `Send` the phases of `___send`; `Renewal` one tick of a claim's renewal; `Lifecycle` the
--     flags of an instance and its letters in flight (`destroy`, `pause`, `resume`, `___dispatch`,
--     `___iterate`); `Startup` what an instance waits for before it is ready (`___ready`); `Queueing` how a letter enters the queue (`sendMail`, `___addToQueue`);
--     `Render` the templates (`___render`); `Compose` the message for a transport
--     (`___compileMailOpts`, `___applyPayloadPolicy`, `transportFrom`).
--   * All of them at once: `System`, any number of workers with an instance each on one letter of a
--     shared queue. Between two calls of the queue anything may happen: a call by another worker, a
--     cancellation, an append, a change of other letters, a crash (a worker that takes no step more).
--     `hangs` is an attempt without a callback. Which snapshots a worker may be given to claim is an
--     argument; `IsScanned` are those that the scan of an adapter picks. `System.Rounds` is one
--     instance alone with a letter, one scan and one attempt after the other.
--
-- Values of JavaScript are trees (`Js.Value`), texts are lists of UTF-16 code units (`Js.Text`).
-- Limits of the model: numbers that the options and tasks hold are natural numbers, so that neither
-- the rounding of an option nor the check that it is finite is there; `toLowerCase` changes the
-- letters A to Z; a value does not remember whether two references are the same object; what
-- `JSON.stringify` and a JSONB column make of mail options is an argument of `Postgres.Columns`.
-- `now - sendingTimeout` is written as a sum on the other side of its comparison. Every loop is a
-- structural recursion over a list or over the number of transports, so there is no fuel.
--
-- Not modelled: logging, the scheduler (JoSk) and its timers, the transports (an attempt is what a
-- transport called back with), and the blank adapter, which is an example for authors of adapters.
mod Prelude
pub mod Js
pub mod Task
pub mod Queue
pub mod Adapters
pub mod Helpers
pub mod Presets
pub mod MailTime
pub mod System
mod Tests
