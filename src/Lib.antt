-- ===== src/Lib.antt =====
-- The traffic aggregator: a service that reads the flow files of network access servers (NAS),
-- counts the traffic of each client address, gives it to the online sessions and saves it.
--
-- Parts and how they interact. A cycle (`Start` in src/internal/usecase/aggregator.go) lists the
-- nas_ip directories, loads the channel map and the session map from the database, and gives each
-- directory with sessions to a worker of the pool. A worker (`Aggregate`) loads the checkpoint, which
-- is the set of files already counted, moves complete flow files to the directory `tmp`, streams the
-- files of `tmp` that are not in the checkpoint line by line into an accumulator, sifts the
-- accumulated traffic by session into chunks, saves chunks and checkpoint in one transaction, removes
-- the files, and then removes the checkpoint.
--
-- Files, with the code that each models:
--   Base         shared names: tests, lists, maps, 64-bit words, byte strings, `strconv.Atoi`
--   Entity       src/internal/entity
--   Traffic      src/internal/usecase/traffic.go: `accumulate_line` is `AccumulateLine`, `result` is
--                `Result`, `sift_traffic` is `SiftTraffic`; proofs in Traffic/
--   Flow         src/internal/usecase/flow.go: `prepare_and_stream` is `StreamFlow`
--   Storage      src/internal/repository/storage/flow.go; Storage/Scan is the line scanner,
--                the others are proofs, and in Storage/Lines the lines that are to be read, told
--                without the loop
--   Database     src/internal/repository/postgresql: tables are lists, a transaction is the list of its
--                writes, which the commit applies
--   Transaction  src/internal/transaction/sql.go
--   Gensql       src/tools/gensql
--   Loaders      src/internal/usecase/channel.go and session.go, `loadChannelMap` and
--                `loadOnlineSessionMap` of aggregator.go
--   Aggregator   src/internal/usecase/aggregator.go: Save has the three uses of the database, Stages has
--                `Aggregate`; the others are proofs
--   Cycle        `Start` of aggregator.go with the flow file that it generates for development, and
--                `ReadFlowDirNames` of the file storage
--   Machine      `Aggregate` again, as a machine whose steps are single uses of the database or changes
--                of the own directory; Machine/Refines relates it to Aggregator/Stages, and
--                Machine/Interleaved runs the machines of all directories at the same time;
--                the others are proofs
--   Workerpool   src/tools/workerpool
--   Config       src/config/config.go
--   Boot         `main` of src/cmd/main.go up to `Cron.Run`, with src/tools/pgdb, src/rimport
--                and src/uimport: `main`
--   App          the loop of src/external/cron.go, `Run` of src/external/httpsrv and the end of `main`, as a
--                machine; App/Safety and App/Shutdown are proofs
--   Health       src/external/health and the routes of `main`
--   Tracing      src/tools/tracing
--   Flowgen      src/tools/flowgen; Flowgen/Totals and Flowgen/Saved tie it to Traffic
--                and Aggregator
--   Loadgen      src/cmd/loadgen/main.go: `seed_load` is `seedLoad`, `cleanup_load` is `cleanupLoad`;
--                Loadgen/Command is `run` and `runCycle`
--   Logger       src/tools/logger, over the handlers of log/slog
--   Subnetrange  src/tools/subnetrange
--   Sqlnull      src/tools/sqlnull
--   Measure      src/tools/measure/measure.go
--   Metrics      src/tools/metrics: label values and the calls of the aggregator as events; Metrics/Record
--                has all methods of record.go, Metrics/Init is `New`, the others are proofs
--   Tests        data, and the theorems at concrete inputs
--
-- Conventions. A Go `int` that holds bytes is a 64-bit pattern, a number below 2 ^ 64 whose additions
-- wrap; row ids and lengths are numbers. A Go map is an association list. Go strings are lists of
-- bytes. Every loop is structural recursion over the list that the code ranges over, or over the number
-- of rounds. Two definitions have a bound on their steps: `run` of Machine, for which five steps are
-- enough (`run-aggregate`), and the digits of `%d`, of which 21 are enough for an int64 (`atoi-itoa`).
-- Calls that may fail take what they answer as an argument: `Faults` for the file system,
-- `Env` for a worker, `CycleEnv` for a cycle. `inserted` of `Db` is no table: it logs each row that
-- was ever inserted into flow_batch, so that theorems can speak of rows that are deleted since; in the
-- same way `saves` of `Service` lists the saves that the database has applied, with the names of the
-- files that were read for each and the entries that `tmp` had then, and `Reason` says why a worker removes its files.
--
-- Third-party code is an argument: address parsing and the subnet trie (`Net`), the panic of a
-- counter, the Prometheus client (`Client`), the conversions of database/sql and encoding/json, and what the
-- start finds (`Host`, `Networking`).
--
-- Not modelled: the log calls of the other parts, `Struct` of src/tools/dump, spans, the timers that
-- Aggregator starts (Measure models them alone), durations and
-- timeouts, constructors that only fill structs, and the mocks, which mockgen generates.
-- Workers of one cycle run one after the other in Cycle, and at the same time in Machine, where a step
-- reads the directory, moves its files and streams them at once, since no other worker uses that
-- directory.
pub mod Machine
pub mod Base
pub mod Entity
pub mod App
pub mod Boot
pub mod Health
pub mod Tracing
pub mod Traffic
pub mod Transaction
pub mod Gensql
pub mod Database
pub mod Storage
pub mod Flow
pub mod Metrics
pub mod Aggregator
pub mod Loaders
pub mod Cycle
pub mod Workerpool
pub mod Config
pub mod Flowgen
pub mod Loadgen
pub mod Logger
pub mod Subnetrange
pub mod Sqlnull
pub mod Measure
pub mod Tests
