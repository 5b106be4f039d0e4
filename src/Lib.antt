-- ===== src/Lib.antt =====
-- clock-relay: a scheduler that fires HTTP and Faktory jobs and keeps a log of its runs.
--
-- The program's parts and their files here:
--   internal/model/model.go      Model: Run and RunStatus.
--   internal/config/config.go    Config: the structs (Types), NormalizeSchedule and ApplyDefaults
--                                (Defaults), what they fill in (Filled), the validation and
--                                ParseLocalDateTime (Validate), an independent description of valid
--                                configurations (Spec).
--   internal/store/store.go      Store: the interface store.Store as a record of methods (Interface),
--                                the retention rule pruneRuns (Retention), MemoryStore (Memory),
--                                BoltStore (Bolt). In Bolt: what the package bbolt, the JSON codec and
--                                the layout of the keys are given as (Buckets), the counter (Counter),
--                                keys and single deletions (Indexes), writeRun (Writing), the loops of
--                                PruneRuns (Pruning), OpenBoltStore and ClearRuns (Opening), the
--                                methods (Methods). Views, Keys, Effects, Counting, Invariant, Written,
--                                Replacing, Deleting, Victims, Selection, Excess, Emptied, Phases, Shrunk,
--                                Pruner, Rebuilding and Listing carry the lemmas for Saving, Deleted,
--                                Pruned, Terminating, Cleared, Rebuilt, Listed, Running and Sparing;
--                                Finished, Sequences and Refinement are about sequences of calls.
--                                Database and Sample are a concrete database and codec for the tests.
--   internal/target/*.go         Target: triggerHTTP (Http), triggerFaktory (Faktory), TriggerTarget
--                                (Dispatch).
--   internal/engine/engine.go    Engine: its state and what it is given (World), when a schedule fires
--                                (Timing), the cron entries of the schedules (Registry, Saving,
--                                Pausing), triggers and executions (Runs, Events, Pruning), NewEngine
--                                (Startup). Entries, Consistency, Switching, Requests and Reachability
--                                prove that the registry is consistent, Saved and KeptTimes are about a
--                                save that succeeds, Recorded, Overlap and Collision are about runs
--                                that must not overlap, Firing is about rate schedules, Storable about
--                                the runs that the bbolt store is given. Samples is for the tests.
--   internal/server/http.go      Server: scheduleFromRequest (Form), the paths of requests (Paths,
--                                RoundTrip), the handlers of the API (Handlers), sequences of POST
--                                requests and the calls they ask for (Serving), what an edit through
--                                the form does (Editing), what the pages show of runs, days and zones (Pages).
-- The engine uses the store through the record StoreMethods, which both stores fill, and the cron
-- package through CronMethods, with what the package documents of its entries in CronLaws.
-- Base holds what all parts share: Go strings as lists of bytes (Text), Go maps as association lists
-- whose order is the unspecified order of iteration (Map), errors as values (Result), 64-bit integers
-- (Int) and slices.SortFunc (Sorting).
--
-- Times are nanoseconds since Go's zero time, as natural numbers: times before the year 1 do not occur.
-- Platform holds what the program calls of the tz database, of time's layouts and of crypto/sha1, as
-- arguments. Loops over slices and maps are recursion on lists, so no fuel is needed.
--
-- A call of the engine is one step: the methods that change the registry hold its lock throughout, and
-- Trigger is taken without another call between its lookup and its write. An execution is two steps:
-- Trigger puts it among the pending ones, and its end is a step of its own at any later time. The
-- readings of the clock in a call are an argument of it.
--
-- A bucket of the bbolt store is a value of a type B that the development does not fix; db.Update runs a
-- function on the buckets of a transaction and keeps the old ones on an error.
-- Not modelled: the opening and closing of the database file, the templates of the HTTP server's
-- pages, the command line, logging handlers, the Faktory and bbolt clients' own code, and the tools and examples.
pub mod Base
pub mod Model
pub mod Platform
pub mod Config
pub mod Store
pub mod Target
pub mod Engine
pub mod Server
