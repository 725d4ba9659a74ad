-- ===== src/Lib.antt =====
-- A verification library for hyperplane-rs: the paramodel crates, which plan, compile and run
-- parameter studies. A study's axes span a grid of trials; a plan of steps with dependencies is
-- executed by a scheduler.
--
-- Prelude: shared names, Boolean tests, lists over the native numbers, machine arithmetic
--   (Prelude/Arith), and ordered sets and maps over identifiers (Prelude/IdSet). An identifier is a
--   number that stands for its string, in the order of the strings: the code only compares them.
--
-- The file Plan/Axis follows crates/paramodel-plan/src/axis.rs, an axis and its validation. Its
--   values are a parameter type with a content fingerprint, a hash that a library computes.
--
-- Enumerator: crates/paramodel-compiler/src/enumerator.rs, the mixed radix numbering of the trials.
--   A panic (an assertion, a division by 0) is `none`; u64 products and sums wrap. Seven digits of
--   fuel are enough for the hexadecimal form of a u32.
--
-- Scheduler: crates/paramodel-executor/src/scheduler.rs. `State` has the types, `Resources` the
--   functions `fits` and `deduct`, `Policy` the orders of the four policies, `Operations` the
--   methods of DefaultScheduler, each a function from the state to the state, since one mutex is
--   held throughout. Floating-point numbers are a parameter (`Floats`). A call that panics is `none`:
--   a vector for more ids than it can hold, an index, and a sort by core counts of which one is NaN,
--   which the standard library lets panic or leave any order. The loop of `mark_failed`
--   and the rotation of the Fair policy run on fuel that the model computes: the number of list
--   entries that are left to visit, and one round for each trial; `Termination` and `Rotation` are
--   about it. `Invariant`, `Marks`, `Failure`, `Dispatch`, `Start` and `Progress`
--   hold the invariant and what follows for every run; `Candidates`, `Budget` and `Cascade` the
--   behaviour of single calls. `Drive` has
--   a caller that asks for steps and reports them completed, in rounds, without a failure; it is not
--   the executor's loop. Its fuel is the number of rounds, one for each step of the plan.
--
-- Constraint: crates/paramodel-elements/src/constraint.rs. The enums of the kinds Int, Double, String
--   and Selection repeat the same combinators and methods, which `Tree` has once, over the leaves of
--   a `Kind`; `Integer`, `Double`, `Text` and `Selection` add the leaves, their tests and bytes,
--   `Boolean` is a type of its own, and `Kinds` the outer enum. The `f64` operations (`Doubles`, with
--   the fact that equal numbers compare alike) and the regex matcher are parameters. A panic in a
--   test is `none`. `Meaning` and `Canonical` treat the Boolean reading of a tree.
--
-- Barrier: crates/paramodel-mock/src/barrier.rs, the barrier as a state machine. A history is a
--   sequence of reports, failures, releases and expired waits, in the order in which they take the
--   mutex; `Barrier/History` relates the state to it. `Barrier/Wakeup` puts the steps of a waiter
--   between them, with tokio's `Notify` as documented: `notify_waiters` wakes those who wait already.
--
-- Recovery: `InMemoryStateManager` of crates/paramodel-executor/src/state.rs, which holds the events
--   of crates/paramodel-executor/src/journal.rs and replays them in `recover`. `Recovery/Replay`
--   compares the replay with the log, `Recovery/Cleanup` is about `cleanup`.
--
-- Names: crates/paramodel-elements/src/names.rs, the validation of a name, with the byte offsets that
--   its errors give.
--
-- The files Plan/Step and Plan/Graph follow the steps of crates/paramodel-plan/src/step.rs and the
--   ExecutionGraph of crates/paramodel-plan/src/execution.rs. The loop of Kahn's algorithm that
--   `validate` and `topological_sort` share runs on one turn of fuel for each step. Each of its turns
--   pops a step that it has not popped before. `Plan/Graph/Visit` has the loop's invariant,
--   `Plan/Graph/Dag` the acyclic graphs. `Plan/Elements` has what the compiler reads of a test plan
--   and its elements (crates/paramodel-plan/src/plan.rs, crates/paramodel-elements/src/element.rs),
--   and `Plan/Validation` the function `TestPlan::validate`, which the compiler calls first;
--   `Plan/Reorder` has `with_axes_reordered`.
--
-- Compiler: `compile_impl` of crates/paramodel-compiler/src/compiler.rs is Compiler/Pipeline, which
--   calls the passes in the source's order. Binding and Trials follow binding.rs and trial_element.rs
--   beside it, Diagnostics the function `gather_unsupported` and error.rs, and Configuration the
--   resolution of parameters. Expansion makes the activations and teardowns of every trial and their
--   first edges; Dedicated, Exclusive, Lifeline, Coalescing, Notifications and Readiness are the
--   passes of those names, Reduction is `apply_transitive_reduction`, Instances the instance graph,
--   and Edges the edits of dependency lists that the passes share.
--   A compilation ends early with a `Stop`: diagnostics, a panic (an index or a key that is missing),
--   or the end of a loop's fuel. The texts of the step ids are a parameter, `StepFormats`, which takes
--   the parts of an id to the number of its text, or to none where the text is too long.
--   A value is a number, whose kind and content hash are parameters.
--   The passes over the binding levels stop by the source's own bound of one more than the elements.
--   The search for the root of a lifeline has one turn of fuel more than there are elements, since it
--   stops at an element that it has visited (Lifeline/Roots). The `while` of the coalescing has a turn
--   for each trial, since each turn takes at least one. The search of the reduction has a turn for
--   each entry of its first stack and for each edge.
--   The scheduler takes the steps that a plan holds: Scheduler/Validated composes it with `validate`,
--   and Compiler/Pipeline/Finish with the compiler.
--
-- Not modelled: the executor's task loop, the orchestrator, observers and the SQLite store, which are
-- asynchronous or database glue; backoff strategies, domains, expressions,
-- attributes of elements, trial results and the in-memory stores. Log output, labels, time stamps,
-- content hashes and serialization carry no behaviour that the models need.
pub mod Prelude
pub mod Plan
pub mod Enumerator
pub mod Scheduler
pub mod Constraint
pub mod Barrier
pub mod Recovery
pub mod Names
pub mod Compiler
