-- ===== src/Lib.antt =====
-- airtrace: a Wi-Fi capture parser in C, a laboratory that generates labelled captures (lab/), and a
-- triage package that lets language models diagnose them (triage/). This library models the Python
-- packages: what of an observation may be seen, and what a diagnosis run does with it.
--
-- How the parts interact: lab/run_lab.py runs the plan of a class on the host, closes the observation,
-- verifies what it imposed (lab/verify.py), cleans up and judges the bundle. lab/window.py freezes the
-- daemons' logs and the capture at the cutoff, and removes control echoes with lab/scrub.py.
-- lab/manifest.py records the bundles with their digests. triage/eval.py prepares the bundles of a
-- split and runs every arm on them: triage/data.py turns a bundle into a label-free view;
-- triage/arms.py sends a view to a model through triage/llm.py, with the bounded tools of
-- triage/tools.py, and parses the answer as a diagnosis of triage/schema.py; triage/metrics.py counts.
--
-- Files:
--   Prelude: shared names, Boolean tests, lists over the native numbers.
--   Text: Python's str as code points; blanks, lines, numbers and the order of texts.
--   Json: json.dumps with its three styles; Json/Size: sorting the keys keeps the length; Json/Members:
--     an object is printed as its members.
--   Lab/Scrub: lab/scrub.py (retained_control_line_indexes, scrub_control_lines).
--   Lab/Window/Timestamp, Recorder, Pcap: lab/window.py (daemon_timestamp_ns; LogRecorder._read and
--     snapshot; pcap_records and trim_capture).
--   Triage/Data, Schema: triage/data.py (View, render_frame) and triage/schema.py (unknown).
--   Triage/Tools/Rows, Reads, Triage/Codes: bounded_rows, log_row, read_log and lookup_code of
--     triage/tools.py, with the tables of triage/codes.py.
--   Triage/Client/Estimate: estimate_prompt_tokens and check_context of triage/llm.py.
--   Triage/Arms/RawLogs, Messages, Setup, State, Run: triage/arms.py (raw_logs; _tool_results and
--     _parse_diagnosis; initial_messages and preflight; the variables of run_arm, and its loop).
--   Triage/Client/Retry, Cost, Complete: ChatClient.complete and estimate_cost of triage/llm.py.
--   Triage/Citations: triage/citations.py (complete_frame_member, check).
--   Triage/Metrics: exclusions, confusion matrix and paired counts of triage/metrics.py.
--   Lab/Dataset: BundleMeta of lab/manifest.py and seed_schedule of lab/scenarios.py.
--   Lab/Scenarios: the classes, their causal keys and render_configs of lab/scenarios.py.
--   Lab/Run/Plan: command_plan of lab/run_lab.py.
--   Lab/Run/State, Executor, Cleanup: the class Executor of lab/run_lab.py (run, healthy, execute and
--     cleanup), and the loop over a plan.
--   Lab/Run/Bundle: run_bundle of lab/run_lab.py over the outcomes of its phases.
--   Lab/Manifest: write_manifest and verify_manifest of lab/manifest.py over the files of a dataset;
--     the summary of the observed states by lab/outcomes.py is an argument.
--   Triage/Eval: evaluate of triage/eval.py, up to the rows that triage/metrics.py counts;
--     Eval/Scores: compute_metrics over these rows.
--   Lab/Verify: verify_injection of lab/verify.py over the replies, the configurations, the processes and
--     the records of a run; its theorems join it to Lab/Run/Bundle.
-- Modules below a component are named for what they prove; each Examples module has the
-- theorems at concrete inputs.
--
-- State and errors: an object that the source mutates is a record that each operation takes and
-- returns. An exception is `none`, or a constructor of the operation's own result type where the
-- source distinguishes errors.
--
-- Bounds and fuel: the reader of captures runs on fuel above the number of bytes left, and each round
-- reads at least 16; the loop of run_arm runs on max_tool_rounds + 2, since each round that goes on
-- uses a tool round or the only repair; a wait of the laboratory runs on one round for each half second
-- left to it, and one more. Sizes are natural numbers, as in Python. Prices and costs are natural
-- numbers of a common unit, and sums of them are exact where the source computes in floating point.
-- The executor's set of namespaces is a list, of which only the members count.
--
-- Parameters, for code outside of the repository: the decimal digits of Unicode, the digest, the JSON
-- decoder and the messages of Python's own exceptions, the validation by pydantic, and the model
-- behind the client; the host on which a run executes its commands, with the time that commands, starts
-- and endings of processes take; the resolution of paths. The rows of an evaluation take what the
-- loading of a bundle and run_arm give as arguments.
--
-- Not modelled: processes, threads, clocks, files and command lines; floating-point results; the
-- redaction of views, and of response bodies, which the request loop takes as a function; pacing of
-- requests; the reports of an evaluation and the freezing of its inputs; and the C parser, which the
-- Python code calls.
pub mod Prelude
pub mod Text
pub mod Json
pub mod Lab
pub mod Triage
