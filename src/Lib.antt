-- ===== src/Lib.antt =====
-- agentmesh is a host that runs plugins: it starts a plugin process, exchanges JSON-RPC messages with
-- it in Content-Length frames, records what failed, and ends with an exit code. Some plugins keep a
-- ledger in SQLite. This library models parts of the Rust code and proves what makes them correct.
--
-- Common: Boolean tests, lists, texts as UTF-8 bytes (`str`), integers, decimals, results and maps.
--   The laws that the parts share.
-- Proto: crates/agentmesh-proto/src. Proto/Failure is failure.rs (categories, codes, exit codes,
--   records), Proto/Limits is limits.rs, Proto/Rpc is rpc.rs, Proto/Compact is compact.rs, Proto/Rfc3339
--   is rfc3339.rs (`parse_rfc3339_epoch`, `days_from_civil`). Timestamps are on unbounded integers:
--   their fields are short, so that an `i64` holds every intermediate value.
--   Proto/JsonStrict is json_strict.rs: a method of the parser takes the input from its position on; a
--   call of `parse_value` or of one of its loops costs a unit of fuel, of which `parse_text` gives twice
--   the length of the input and one more. The decoding of a string and of a numeral by serde_json is a
--   parameter.
-- Host: crates/agentmesh-host/src. Host/FailureCoord is failure_coord.rs: the state under the mutex, a
--   call of a method for each step. Host/Framing is framing.rs: `FrameDecoder` is the record of the
--   same name, `push`, `finish` and `try_decode` are its methods, `read_headers` is the loop of
--   `try_decode`, structural on the buffered bytes and so without fuel, and `line_step` is what one
--   byte does. Host/Framing/Headers is `parse_headers` with what it calls of the standard library.
--   Host/Redaction is redaction.rs: `tokens_of` is the first half of `redact_pointer`, `redact_at` its
--   loop on a JSON value, which is a data type with serde_json's constructors;
--   Host/Redaction/Paths has the paths of RFC 6901 that it is compared with. Host/Run is run.rs:
--   `execute_run_with` is a chain of phases, each of which goes on, returns early through `finish`,
--   panics, or waits for good at a write to the child or at the end of its stderr, which no timeout
--   guards; Host/Run/State has the local variables and the answers of the outside (`World`, `Process`,
--   `Codec`), Host/Run/Frames `read_one_frame`, Host/Run/Stderr the stderr task, Host/Run/Child
--   `terminate_child` and `close_and_reap`, Host/Run/Exchange the two requests, Host/Run/Finish `finish`.
--   Each answer of the outside is given for the run at once, so that a theorem over all of them is one
--   over all behaviours of the plugin and of the system. Host/Process is process.rs on Unix,
--   Host/Sidecar the data of sidecar.rs and audit.rs, and Host/Sidecar/Store `FsAuditStore::persist` on
--   the calls of the file system.
-- Evidence: crates/agentmesh-evidence/src. Evidence/Decision is decision.rs without the splitting of the
--   frontmatter; a text there is its code points. Evidence/Graph has the maps that `expand_with_statuses`
--   of graph.rs makes, Evidence/Graph/Walk its loop: a turn is one `pop_front` and costs a unit of fuel,
--   of which there is one for each seed, 20 for each of `max_nodes`, and one more. Evidence/Graph/Readers
--   and Evidence/Graph/Links compare what the loop reads of the nodes and the edges with the graph.
-- Ledger: plugins/local-control-ledger/src/lib.rs. Ledger/Rows has the tables of `init_ledger`,
--   Ledger/Sql the forms of SQL statement on lists of rows, Ledger/Store the actions: an action takes
--   the tables and returns a result and the tables, each step of the database can meet a fault that
--   the environment chooses, and a transaction that does not commit is rolled back. Ledger/Validate,
--   Ledger/Args, Ledger/Leases, Ledger/Claims, Ledger/Records and Ledger/Metrics have the operations of
--   `dispatch`, Ledger/Dispatch has `dispatch` and `run_local_control_ledger`. Ledger/Stable and
--   Ledger/Atomic go through the operations statement by statement.
-- Lane: plugins/lane-run-ledger/src/lib.rs. Lane/Record is the operation `record`: `validate_record`,
--   `canonical_record_line`, `ts_bucket_month` and `run_record_op`. The line is the JSON object before
--   it is printed.
--
-- A run parses its input with Proto/JsonStrict, reads the answers with Host/Framing within the bounds of
-- Proto/Limits, redacts what it keeps with Host/Redaction, and records failures in Host/FailureCoord;
-- the ledger compares timestamps with Proto/Rfc3339.
--
-- Not modelled: the scheduling of threads, the clock and so the timings of the audit document, the
-- file system beyond the answers of its calls, SQLite itself beyond the statements that the ledger
-- executes, the migration of ledgers of older schema versions, the decoding of JSON values into the
-- types of the operations, the operation `classify` of the lane-run ledger, the other plugins, the
-- app and command-line crates, and the contract, the discovery and the packets of the evidence
-- crate. The messages of errors are represented by the condition that they report.
pub mod Common
pub mod Proto
pub mod Host
pub mod Evidence
pub mod Ledger
pub mod Lane
