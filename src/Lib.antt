-- ===== src/Lib.antt =====
-- Verification of gctrl: a local kernel for agents (kernel/crates, in Rust) with a task board, an
-- orchestrator that dispatches agents on the board's tasks, guardrails on what agents do, a pool of
-- warm browser processes, a scheduler, a crawler, the synchronisation of a vault of notes, telemetry
-- and, on macOS, communication.
--
-- The parts and how they interact. The board (gctrl-core and gctrl-storage) keeps projects, issues,
-- events, comments, tasks and acceptance checks in SQLite. A move of an issue to `in_progress`
-- promotes it to a task and seeds its acceptance checks. The orchestrator's workers (gctrl-orch) list
-- the tasks that may be dispatched, win one by a compare-and-swap of its claim, run an agent with a
-- brief made from the issue, and record the end as a comment and a claim. The guardrails
-- (gctrl-guardrails) judge an agent's context by a list of policies. The browser pool (gctrl-browser)
-- hands out sessions on Chromium processes and recycles these. The scheduler (gctrl-scheduler) creates
-- schedules, starts the program of each one that is due and keeps a history of the runs. The crawler
-- (gctrl-net) walks the links of a site. The vault synchronisation (gctrl-sync) compares the notes
-- with a manifest and pushes what changed. The span processor (gctrl-otel) turns exported spans into
-- sessions and rows. The inbox keeps messages that wait for a human, by thread, and the actions on
-- them. The macOS side (gctrl-mac-comm) validates a request to focus a terminal and hands AppleScript
-- to osascript.
--
-- The files:
--   Prelude            shared names, lists over native numbers, statements on a table, sorting,
--                      Result and Option with `?`, decimal texts and the methods of `str`.
--   Board/Status       kernel/crates/gctrl-core/src/types.rs: IssueStatus and its paths.
--   Board/Model        the rows, and the store as lists of rows in the order of insertion.
--   Board/Move         update_board_issue_status of kernel/crates/gctrl-storage/src/sqlite_store.rs.
--   Board/Claim, Tasks promote_issue_to_task, try_transition_claim, list_dispatchable_tasks there.
--   Board/Tasks/Refines
--                      the abstract view of the claims: a map from tasks to claims with a
--                      compare-and-swap; Rows and Laws relate the table to it.
--   Board/Acceptance   kernel/crates/gctrl-core/src/acceptance.rs: the parser of criteria.
--   Board/Checks       seed_acceptance_checks, upsert_acceptance_result, acceptance_rollup.
--   Board/Ops          the promoting move, the schedule, comments, events, sessions, the counter.
--   Browser/Model, Config, Token, Recycle, Pool
--                      the files of the same names of kernel/crates/gctrl-browser/src; Pool/Attach and
--                      Pool/Sweep hold `attach` and `sweep`.
--   Guardrails         engine.rs and policies.rs of kernel/crates/gctrl-guardrails/src.
--   Orch/Env, Agent, Prompt, Comment, Worker
--                      agent.rs, prompt.rs, config.rs and worker.rs of kernel/crates/gctrl-orch/src.
--   Scheduler          kernel/crates/gctrl-core/src/schedule.rs, fire_one of
--                      kernel/crates/gctrl-scheduler/src/runner.rs, and their rows.
--   Scheduler/Exec, Cron, Create, Rows
--                      exec.rs; cron.rs and redact.rs; create and build_schedule of http.rs;
--                      the tables, the tick and the start of runner.rs, and in Rows/Manual run_now
--                      of http.rs, in the same crate.
--   MacComm/Model, Pattern, Validate, Focus
--                      model.rs, error.rs, validate.rs and focus of kernel/crates/gctrl-mac-comm/src,
--                      and handle_focus of comm_routes.rs of gctrl-otel.
--   Net/Crawl          kernel/crates/gctrl-net/src/crawl.rs.
--   Sync/Vault         kernel/crates/gctrl-sync/src/vault.rs.
--   Inbox              the tables of messages, threads and actions in sqlite_store.rs; Inbox/Routes the
--                      handlers of kernel/crates/gctrl-otel/src/receiver.rs that write to them.
--   Telemetry/Spans    kernel/crates/gctrl-otel/src/span_processor.rs.
-- A module Laws below a definition's file holds what is shown of it (Dispatch, Rollup, Warmest,
-- Lifecycle, Ends, Settled, Plan, Again, Safe, Urgency, Derived, Spawns, Runs, Capped and Reach as
-- well), and Examples the runs on small inputs. A function of the model has the name of the source's function.
--
-- State is a record that each operation takes and returns. Where a move of the board, the worker, the
-- pool or the scheduler releases a lock in the middle, what others do there is an argument of it, such
-- as `others`, `during_launch` or `before_bind`. The clock and the generators of identifiers are
-- arguments as well. A database error that is not the code's own is not modelled; rows that tie in a sort keep the order of insertion;
-- generated identifiers of events and comments are taken to be new. A time is a number, money a number
-- of its smallest unit or, in the guardrails, a parameter. A column of JSON is its value or its text.
-- A handler of the inbox runs as one step.
--
-- All loops are structural recursion on the list that they walk, but for two on fuel. The decimal text
-- of a number takes a number plus one rounds, and a number has at most so many digits. The crawler's
-- loop over its queue takes the fuel that its caller gives; each round takes a page off the queue, and
-- a page is put there only when its address has not been seen.
--
-- Not modelled: the synchronisation engine of devices, DuckDB, the routes of gctrl-otel but those
-- named above, the lists of the inbox, personas and review rules, the proxy and the recorder, the rate
-- limiter (floating point), the rendering of pages, the drivers, the command line and the
-- applications; the operating system, SQLite, the launcher of Chromium, the HTTP client, regular
-- expressions and the random generator are parameters or the hypotheses named above.
pub mod Prelude
pub mod Board
pub mod Browser
pub mod Guardrails
pub mod Inbox
pub mod MacComm
pub mod Net
pub mod Orch
pub mod Scheduler
pub mod Sync
pub mod Telemetry
