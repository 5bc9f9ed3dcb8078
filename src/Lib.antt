-- ===== src/Lib.antt =====
-- AI Env Mgr (go/): the console that manages employees' AI environments on company desktops. The
-- console keeps its state in a database and does slow work through a queue of tasks in it; machines
-- pull what they should run from their configuration and report back.
--
-- The parts, and where they are:
--   * Task, Queue: the task queue of go/internal/dbstore/tasks.go over the types of
--     go/internal/repo/repo.go. Task is a row and what the SQL tests of it, Task.Updates what an update
--     writes into it. Queue has the two tables with Enqueue and Claim, Queue.Close the reports (Extend,
--     Succeed, Fail, FailPermanently), Queue.Sweep the updates over many rows (Supersede,
--     SupersedeOpenForEmployee, ReleaseExpiredLeases), Queue.Listing what the pages read, Queue.Steps
--     any schedule of statements. The modules Effect, Unique, Invariant, History, Earliest, Claiming,
--     Reports, Endings, Displaced, Sweeping, Enqueueing and Repeating are about them.
--   * Worker: go/internal/worker/worker.go. Errors, options and events are in Worker, `backoff` in
--     Worker.Backoff, `RunOnce` in Worker.Once; Worker.Outcomes, Worker.Runs and Worker.Undisturbed are
--     about it. The worker uses the queue by the queue's own operations.
--   * Release: releases. Release.Rows has the statements of go/internal/dbstore/releases.go, the types of
--     go/internal/repo/releases.go are in Release. Release.Service has the operations of
--     go/internal/ops/releases.go on rollouts and targets, Release.Library those on artifacts,
--     Release.Settle the reports of go/internal/worker/settle.go. They queue exports on the same task
--     queue. Release.Moves is what may happen to the targets; Kept, Operations, Settled and Schedules
--     read the operations as such moves, Orderly is about the moves themselves; Rollouts, Coverage,
--     Global and Reported are about single operations.
--   * Version: go/internal/model/version.go, which decides the machines that a release may be aimed at.
--   * Account: the accounts of employees. Account has the row types, Account.Employees, Account.Limits and
--     Account.Access the statements of go/internal/dbstore on employees, on quotas, and on bindings, grants
--     and credentials. Account.Service has the operations of go/internal/ops/ops.go on accounts,
--     Account.Machines those that assign machines, with `ForgetMachine` of go/internal/ops/machines.go;
--     they run on the store of Release and queue work on
--     the same task queue. Account.Steps is any sequence of them; Account.Keeps, with the modules below
--     it, takes what the statements keep to the operations, and Epochs and Bindings use it. Closing is
--     about `Offboard`.
--   * SignIn: signing in to the console, go/internal/authn/authn.go and password.go over the statements of
--     go/internal/dbstore/admins.go (SignIn.Rows). Service has the operations, Passwords the reading of
--     stored hashes, Printing their printing, and HashText is about both. Overlap has sign-ins between
--     whose check and record others come. Steps is any sequence of operations, Keeps takes what the
--     statements keep to the operations; Lifetime, LastWay, Lockout (with Attempts and Guesses) and Recovery are about
--     sessions, the last enabled account, the limit on guesses and recovery codes.
--   * Secrets: sealed values, go/internal/secrets/secrets.go and rekey.go; RoundTrip is about them.
--   * Limiter: the limit on sign-in attempts, `allow` of go/internal/adminweb/limiter.go; Limiter.Recent
--     and Limiter.Window are about it.
--   * Base: tables as lists of rows, lists, Boolean tests, durations.
--
-- How the code corresponds: a table is a list of rows in the order of insertion; a statement is a
-- function on the tables that runs atomically at the database's time, which is an argument; a
-- transaction is a chain of statements that keeps the store it began in if it is refused. A uuid is
-- a number; in the queue a fresh one is an argument, and a used one is refused; in releases the store
-- hands out its next number. Times and durations are nanoseconds. `skip locked` and the epochs that a
-- claim reads are arguments. Whatever else is at work between two statements is a schedule of steps.
-- `backoff` works on 64-bit words with wrap-around; its loop runs `attempts - 1` times, which is the
-- recursion, so no fuel is needed anywhere. Sign-in commits each statement as it is made, so an error
-- keeps what was done before it; it reads two clocks, the console's and the database's. An operation of
-- authn.go runs in one step, although nothing but its single statements is atomic there; only the
-- check of the failures is taken apart from the rest of a sign-in (SignIn.Overlap). Cryptography is
-- an interface with what is documented of it.
--
-- Not modelled: lost connections, foreign keys, the overflow of integer columns and the checks of the
-- schema on single columns; locks between transactions, for a transaction runs alone (what its second
-- statement meets after another transaction is stated of CreateTarget); the JSON of audit
-- rows and the texts of errors; the wake-ups sent to machines; the worker's polling loop and timers; the
-- fleet policy document that SetGlobalTarget rewrites beside its targets; `strings.EqualFold`, lower
-- case, how ids, epochs and times are written out and the JSON of payloads, which are arguments. The
-- task handlers, the machine configuration, the agent, the tickets, the web pages, the one-off import
-- and the clients of outside services have no model yet.
mod Base
pub mod Task
pub mod Queue
pub mod Worker
pub mod Version
pub mod Account
pub mod Release
pub mod Limiter
pub mod Secrets
pub mod SignIn
