-- ===== src/Lib.antt =====
-- go-benefit: benefits (coupons, vouchers and the like) that providers hold, with the drivers that
-- reach the providers.
--
-- The root package has the value models, their Validate methods and the correlation of results with
-- requests. constraint registers evaluators by type and evaluates the constraints of a benefit;
-- evaluation builds on it to decide on operations and on local eligibility, and resolves statuses.
-- discount computes monetary effects and confirms those of a provider against a trusted amount.
-- driver registers definitions and binds configurations to drivers.
--
-- Files and sources:
--   Prelude, Text, Int64, Dict, Time, Memory: lists, byte strings (strings.TrimSpace, EqualFold and
--     ToUpper, UTF-8, slices.Sort), int64 with its wrap-around, maps as association lists, time.Time,
--     and variables and arrays that pointers and slices share.
--   Errors: errors.go of the four packages; errors.Is is is_error.
--   Core.Identifier: identifier.go. Core.Diagnostic: diagnostic.go. Core.Status: status.go and
--     result.go. Core.Money: money.go. Core.Outcome: outcome.go. Core.Constraint: constraint.go.
--     Core.Operation: operation.go. Core.Info: model.go, validation.go and the requests of driver.go.
--     Core.Results: result_evaluate.go, result_redeem.go, result_reversal.go. Core.Correlation:
--     correlation.go, and in Core.Correlation.Pointers over records that a driver may keep.
--     Core.Config: driver_config.go. Core.Driver: driver.go.
--   Discount.Calculate: discount/calculate.go. Discount.Resolve: discount/resolve.go.
--   Constraint.Types and Constraint.Registry: constraint/input.go, constraint/types.go and
--     constraint/registry.go. Constraint.Builtin: constraint/builtin.go and builtin_*.go.
--   Evaluation.Status, .Operation and .Eligibility: evaluation/status.go, operation.go, eligibility.go.
--   Driver.Registry: driver/registry.go. Driver.Registry.Shared: its copies of descriptors, over arrays
--     that the application can write. Constraint.Default and Driver.Default: the registry of each
--     package and the helpers on it.
--   Sync: goroutines that call the methods of a registry behind its sync.RWMutex, in any interleaving.
--     Constraint.Registry.Concurrent and Driver.Registry.Concurrent: what their methods do under the
--     lock. Constraint.Registry.Racing: EvaluateAll, which takes the lock anew for each
--     constraint.
--   Drivertest: the checks of drivertest/drivertest.go. Drivertest.Test and Drivertest.Run: Run, as
--     subtests over the state of a provider that return, fail, skip or panic.
--   Tests: runs on concrete values, and an example of each theorem.
-- A child module such as Laws, Valid or State states what holds of its parent.
--
-- Conventions. A Validate method is validate_x into Check, where `ok tt` is a nil error; a method that
-- returns a value and an error is a Result. A nil pointer is `none`. A string type with named
-- constants is a data type with these, `other` for any other string, and `empty` for the empty string
-- where the code tests it. A method on a registry is a function from the map to its result and the map
-- after it (Step, Reach); the Concurrent modules have the same methods as goroutines run them, against
-- these functions. A call there takes the lock as soon as the rules of sync.RWMutex allow, reads,
-- writes with its reply, and releases; that RWMutex prefers a waiting writer to new readers is left
-- out.
-- Loops are structural recursion on the list, so no fuel is used; a loop that keeps a set of keys
-- takes the list of keys seen. The evaluators that an application supplies, extractors and driver
-- methods are any functions; those of a driver act on the state of its provider.
--
-- Bounds: an int64 is an integer, and IsInt64 bounds it where a theorem needs the range; sums,
-- products and quotients wrap modulo 2 ^ 64 as in Go.
--
-- Parameters for code from elsewhere: JSON decoding and encoding, the clock, the time zone database
-- and weekdays, what the context of a call answers, and reflect.DeepEqual on snapshots.
--
-- Descriptor of a driver is a method that Bind and each subtest of Run call more than once. What it
-- returns to a caller's first call and to the next one are two fields, which nothing assumes to be the
-- same but the theorem that names this as a hypothesis; driver.go documents that it is.
--
-- Drivers, snapshots and assertions of a fixture are any functions that return; an assertion that
-- fails ends its subtest, as t.Fatal does.
--
-- Memory: slices and pointers are values (a copy is an equal value) but in Core.Correlation.Pointers and
-- Driver.Registry.Shared, which have the writes that copies are there to withstand. There an array is
-- one cell, a write replaces any array of the application as a whole, and an application reaches an
-- array only if it made it or a reply of the registry refers to it.
--
-- Not modelled: the aliasing of what the packages neither copy nor write, such as the details of a
-- diagnostic, the zero Registry whose map is nil, panics of what an application supplies, the text
-- that fmt makes of operands, and JSON field names.
pub mod Prelude
pub mod Text
pub mod Int64
pub mod Dict
pub mod Time
pub mod Errors
pub mod Memory
pub mod Sync
pub mod Core
pub mod Discount
pub mod Constraint
pub mod Evaluation
pub mod Driver
pub mod Drivertest
pub mod Tests
