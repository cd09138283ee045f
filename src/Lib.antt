-- ===== src/Lib.antt =====
-- MyCRT captures the workload of a MySQL database, replays it on other databases and compares their
-- metrics. A capture process reads the general log of a database in rounds, stores each part as a
-- fragment and asks CloudWatch for the metrics of the same window. A replay process loads the final
-- workload and runs its commands at their times relative to the start. A service (REST) keeps users,
-- environments, captures and replays in a MySQL database, launches and stops the processes and shows
-- their metrics to the members of an environment.
--
-- The modules and the code that they model:
--   Data            common/src/data.ts
--   Storage         common/src/storage: Schema is backend-schema.ts (keys as code points), Backend the
--                   abstract class of backend.ts with the laws of a key-value store, S3 is
--                   s3-backend.ts over an S3 client, Fragmented is
--                   fragmented-storage.ts (read, getUpdatedObject, updateInProgressObject and so on)
--   Metrics         common/src/metrics: Merger is metrics-merger.ts, Storage is metrics-storage.ts,
--                   Backend is metrics.ts, metrics-backend.ts and cloudwatch-metrics-backend.ts
--   Workload        capture/src/workload: Storage is workload-storage.ts, Prep is replay-prep.ts,
--                   Logger is workload-logger.ts
--   Process         common/src/capture-replay/subprocess.ts (tryTwice) and the windows of the metrics
--                   in capture/src/capture.ts, replay/src/replay.ts and replay-manager.ts; Gathering is
--                   the rounds of a capture with the fragments that they send (loop and
--                   sendWorkloadToS3 of capture.ts), composed with the logger, the files and the final
--                   workload file; Measuring is sendMetricsToS3 of capture.ts and replay-manager.ts,
--                   composed with CloudWatch and the final metrics file; Lifecycle is the setup, stop
--                   and teardown of a capture; Commands is the running of commands in
--                   capture/src/mimic/replay-manager.ts and Mimics the loading, starting and ending of
--                   its replays with capture/src/mimic/mimic.ts; Args is common/src/capture-replay/args.ts
--                   with the options of capture/src/args.ts, replay/src/args.ts and
--                   capture/src/mimic/args.ts
--   Replay.Schedule replay/src/replay.ts: loop, queryInInterval, getDelayForIndex, shouldWeContinue
--   Service         Tables is scripts/db/mycrt.sql; UserDao, SessionDao, EnvironmentDao, InviteDao,
--                   CaptureDao and ReplayDao are the classes of common/src/dao; Session is
--                   service/src/auth/session.ts; UserRoutes, EnvironmentRoutes, CaptureRoutes,
--                   ReplayRoutes and InviteRoutes are the routers of service/src/routes with the
--                   checks of service/src/middleware/replay.ts and service/src/auth/middleware.ts;
--                   Accounts is any sequence of requests to the routes of users; MetricsRoutes is
--                   service/src/common/capture-replay-metrics.ts with its two routes; Http is
--                   http-error.ts and handleHttpErrors; Creation is create.ts, capture-creator.ts,
--                   replay-creator.ts and mimic-creator.ts of service/src/common, Launching is
--                   launching.ts there; Management is service/src/management
--   Ipc             common/src/ipc: IpcNode with its handlers, its children and the node of the
--                   service, in a network of the nodes that run
--   Common          lists, sorting, dictionaries, printed numbers, results, and Action: a computation
--                   that changes a state and may throw (an awaited promise), where what was changed
--                   before a throw stays changed
--   Tests           concrete runs, and the theorems at concrete inputs
--
-- How the code is read. An `async` function is an Action; an operation that is awaited is a step of
-- it. Maps of TypeScript objects are association lists. Times are whole milliseconds, and ids and
-- counts natural numbers; no fixed width is involved, since the code uses numbers below 2 ^ 53.
-- Loops over lists are recursion on the list; rounds of a timer are counted by an argument, the
-- number of rounds that run, so no fuel is used. The backend's store, the database of a captured
-- environment, the AWS services and the ipc answers are arguments. The service's database answers
-- every query; it refuses a row only for its foreign keys, compares texts exactly, and the random
-- invite code is an argument. Since it answers every query, the catch clauses of the queries are
-- not reached. A deletion that the code starts and does not await (deleteInProgress,
-- deleteDepotEntries, deletePrefix) is done when it is started, so its races with later writes are
-- left out; nor does the clock move while the commands of one fragment of a mimic are handed over.
-- An event time that is no date, whose comparisons the source leaves undetermined, sorts first.
--
-- Parameters: bcrypt is a function that hashes and one that compares (UserRoutes.Bcrypt); the
-- random texts of sessions, password tokens and salts are arguments; what command-line-args reads
-- from the arguments is a function with the documented reading (Process.Args.ReadsArgs); the S3
-- client is a record of its calls with the laws of a bucket (Storage.S3.Laws); of the node-ipc
-- package, whether a connection to a path is called back is an argument, and a server listens at
-- the path of its node. The client of CloudWatch keeps a series of points for each name of a metric
-- (Process.Measuring.CloudWatch.AnswersRequests) and rounds the start of a request down. The
-- general log is a list of commands with their times, and a query answers with those between two
-- times (Process.Gathering.Rounds.Answers); the listing of a place for files names every fragment
-- of a directory that has no more files than a limit (Storage.Fragmented.Listed.ListsAll); for S3
-- the limit is a page of 1000 keys, and Storage.S3.Unprefixed is about S3 without a prefix as such
-- a place (with a prefix, two keys may name one object, so it is not a place as
-- Storage.Backend.IsLawful asks for); md5, the reading of dates and the request of a mock capture
-- (fakeRequest) are functions.
--
-- Not modelled: the GUI and the CLI (presentation and a client), the validation of request bodies
-- by joi schemas, logging, Slack's web client with its routes, e-mail, the encryption of
-- credentials, the spawning of processes, the local backend (calls of libraries), the mock metrics
-- (random numbers), and the routes of service/src/routes/validate.ts.
pub mod Common
pub mod Data
pub mod Storage
pub mod Metrics
pub mod Workload
pub mod Process
pub mod Replay
pub mod Ipc
pub mod Service
mod Tests
