-- ===== src/Lib.antt =====
-- Sokratos, a personal assistant around local LLM servers: the parts of the Go program that decide
-- which request runs, what is tried again, and what the LLM gets to see.
--
-- The program. A message of the user or a timer starts the orchestrate loop (orchestrate/loop.go),
-- which asks an LLM, runs the tool it names and asks again. The loop runs on one of two servers that
-- the slot router (engine/slot_router.go) chooses; each server has a priority semaphore
-- (engine/priority_sem.go) for its slots. Background work goes to the same servers through clients
-- (clients/subagent_client.go, clients/deep_thinker_client.go, clients/base_client.go) that put a
-- circuit breaker (clients/circuit_breaker.go) in front and take a slot. What needs no answer at once
-- is queued (clients/workqueue.go), and failed work is tried again (pipelines/retry_queue.go,
-- pipelines/retry.go). The conversation is trimmed for each request (engine/trim.go) and slid when it
-- gets long (engine/slide.go); a snapshot of it (engine/state.go) outlives a restart.
-- Longer work is a row of one table: a plan whose steps run in the background
-- (worktracker/work_tracker.go, worktracker/plan_execute.go), or a task with a due time
-- (tools/task_queue.go, engine/scheduler.go). Routines come from a file (routines/sync.go). Which tool
-- runs is decided by the registry (toolreg/registry.go), a scope (toolreg/delegate_config.go) and the
-- user (confirm.go); some tools run in a session beside the conversation (dispatch.go). The shell tool
-- (tools/shell.go) has an allow list of its own, and the file tools (tools/file_ops.go) ask before they
-- leave the workspace. While the user is away the engine works on its memory (engine/cognitive.go):
-- it consolidates it (pipelines/consolidate_memory.go), runs the routines that are due
-- (engine/routines.go) and pursues the user's objectives (objectives/objectives.go,
-- engine/objective_pursuit.go, engine/curiosity.go, objective_callbacks.go). At the end of a turn its
-- tool results are shortened (condense.go) before they join the conversation, and a reply is formatted
-- for Telegram (platform/telegram/format.go).
--
-- The files.
--   Base: names and helpers; numbers are the native ones, Go's int where it may be negative is ℤ.
--   Semaphore: PrioritySem. One function per method; Acquire is `acquire` up to its select, then
--     `received` or `cancel`. Semaphore/World is the step relation of callers and semaphore.
--   Router: slotRouter over two semaphores; a choice is data for its closures.
--   Breaker: circuitBreaker, with the time as an argument.
--   Client: one request as `begin` and `finish`; Client/Http has doRequest and waitForReady.
--   WorkQueue: QueueWork and process, with the priorities of memory/save.go.
--   RetryQueue: Enqueue and drain; Attempts: RetryWithBackoff.
--   Conversation: TrimMessages, SlideAndArchiveContext up to the archive, SlideMessages.
--     Conversation/Wire has the JSON of a message in llm/client.go, Conversation/State the preferences
--     and the snapshot of engine/state.go, the tools on them and the staleness trim of message_loop.go,
--     and Conversation/State/Snapshots the step relation of the goroutines that store the snapshot.
--   Orchestrate: RunLoop as rounds on a state (Orchestrate/State); Orchestrate/Tools has tools.go,
--     Orchestrate/Notes and Orchestrate/Turns what a round adds, Orchestrate/Limits whole runs,
--     and Orchestrate/Unseen how engine/trim.go reads the messages of the loop.
--   Condense: condense.go, on the messages of Conversation.
--   Text: Truncate and ExtractJSON of textutil/textutil.go; Text/Clean has CleanLLMJSON.
--   Schedule: ParseSchedule of timefmt/timefmt.go and routines/schedule.go.
--   Approval, Selector: toolreg/approval_cache.go and toolreg/selector.go.
--   Shares: engine/share_limiter.go.
--   WorkItems: the table work_items and its statements. Tracker: WorkTracker; the goroutine of a plan is
--     `take_slot` or `give_up`, then `end_plan`, and Tracker/Slots is the step relation of the callers,
--     the goroutines and the watchdog. Scheduler: the tools of tools/task_queue.go, and executeTask as
--     `begin_task` and `finish_task`. Plan: the scratchpad, decomposePlan and executeSteps.
--   Registry: toolreg/registry.go, the scoped executor and the confirmation of confirm.go.
--   Shell: `extract_binaries` and `prepare`, which is execute up to the command; Shell/Output is what
--     follows it.
--   Jobs: engine/background_jobs.go, tools/background_jobs.go and runBackgroundJob of dispatch.go.
--   Cognitive: when engine/cognitive.go runs its work and its maintenance.
--   FileOps: tools/file_ops.go; the files are an association list.
--   Routines: the table routines, SyncFromFile and SyncIfChanged; Routines/Args has routines/args.go.
--     Processed: pipelines/processed_tracker.go. Registry/Maps: lemmas on association lists.
--   RoutineRuns: QueryDue, AdvanceTimer and the recent actions of engine/engine.go; RoutineRuns/Run has
--     executeSingleRoutine, with the deferred end of the work of Tracker as its last step.
--   Objectives: the table objectives; Objectives/Manage has tools/objectives.go and the saving of
--     engine/objectives.go. Pursuit: runObjectivePursuitIfReady, drainCuriositySignals, the two in the
--     order of heartbeatTick, on one state of table, channel and timers; Pursuit/Callback has the
--     callback of a task, before and after its request.
--   Consolidate: the batches of ConsolidateCore, and applyMemoryMerges on the table memories;
--     Consolidate/Profile has pipelines/consolidate_profile.go.
--   Telegram: tables, escaping and inline formatting; Telegram/Render has mdToTelegramHTML and
--     mdToEntities.
--   Tests: runs of the definitions and examples of the theorems.
--
-- Concurrency. Each method under a mutex is one function of the state; most methods that leave the
-- mutex and take it again are several, so that other calls may run in between. KillHungWork, Cancel and
-- TrackEnd of worktracker/work_tracker.go are one function each, of the sections and statements in
-- their order, and Tracker/Slots has these as steps of their own; SlideAndArchiveContext reads the
-- number of messages and the messages as one snapshot. Channels are the numbers under which they were
-- made.
--
-- Bounds. The loop of RunLoop runs over its number of rounds and RetryWithBackoff over its attempts,
-- as the source's loops do, so neither needs other fuel. The forward search of the slide gets as many
-- turns as there are indices. Draining the work queue recurs on a budget that is computed from the
-- retries it holds. The loop of executeSteps, whose list of steps may be replaced once by at most four,
-- runs on fuel: the number of steps and four more, which is shown to be enough; a background job has
-- the rounds of its loop. ConsolidateCore gets as many batches as there are memories, and the stripping
-- of inline formatting one round more than the text has bytes; both are shown to be enough. Times and
-- durations are nanoseconds and do not overflow.
--
-- Parameters. The LLM, the tools, JSON decoding, regular expressions, SHA-256, strings.TrimSpace,
-- utf8.RuneStart, embeddings, the functions on file paths and the calendar are arguments of the
-- definitions that use them. Most functions that send statements to the database take as arguments
-- which of them it refuses; a function that is one statement and returns its error may be that
-- statement alone, as where it is taken.
--
-- Not modelled: logging and metrics, the search in the memory and its SQL, the text of archives, the
-- rows of the profile and the personality, prompts, the JavaScript runtime of skills, the tools but those
-- named above, timers, the Telegram and Google services, configuration and wiring.
pub mod Base
pub mod Semaphore
pub mod Router
pub mod Breaker
pub mod Client
pub mod WorkQueue
pub mod RetryQueue
pub mod Conversation
pub mod Orchestrate
pub mod Text
pub mod Attempts
pub mod Schedule
pub mod Approval
pub mod Selector
pub mod Shares
pub mod WorkItems
pub mod Tracker
pub mod Scheduler
pub mod Plan
pub mod Registry
pub mod Shell
pub mod Routines
pub mod Processed
pub mod FileOps
pub mod Jobs
pub mod Cognitive
pub mod Condense
pub mod Consolidate
pub mod Objectives
pub mod Pursuit
pub mod RoutineRuns
pub mod Telegram
mod Tests
