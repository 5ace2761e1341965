-- ===== src/Lib.antt =====
-- The Twitter clone of this repository: a logical clock (crates/clock), identifier generators
-- (crates/ids), value types (crates/domain), an in-memory store (crates/store), the service that
-- composes them (crates/service) and an HTTP shell around it (crates/server). The service answers a
-- request by the guards of crates/domain and its own, stamps a tweet with the clock and a generator's
-- identifier, and writes to the store; a timeline is computed by the store.
--
-- Files. Clock.antt, Ids.antt, Domain.antt, Store.antt and Service.antt hold the state and the
-- operations of the crate of that name, under the source's names, and the modules below each hold
-- what is proved of it. A method is a function from the state to its answer and the next state. A
-- method of the clock, of a generator or of the store takes its lock once, so the calls that threads
-- make of one of these are a list of such steps. A method of the service takes several locks in turn:
-- Service.antt has it as one step, and Service/Threads.antt as its critical sections, `begin` the code
-- up to the first lock and `advance` one section with the code up to the next; there a list of events
-- starts calls on threads and moves threads, in any interleaving. Service/Threads/Dumps.antt adds
-- administrators, whose dumps and loads are four sections each, to these threads.
-- Service/Spec.antt is the abstract state, functions of handles, with one turn for each request.
-- Store/Snapshot and Service/Snapshot dump the state and load it; Store/Logical.antt is the quotient
-- of the stores by what tells them apart.
-- Server/App.antt is the server as a whole: a request for each route with what the framework extracts
-- from it, the shared state, the handler of the route, the middleware that counts, and the start-up.
-- The modules VerusProof of Store, Service, Clock and Ids are the modules `verus_proof` of the crates:
-- the copies of the methods that the verifier checks over shims whose contracts it trusts. The shims
-- are interfaces, by what they touch; their bodies fill them, and the copies over the bodies are
-- compared with the methods.
-- That of crates/ids has a contract without a body.
-- Server has the handlers of crates/server over decoded bodies: Handlers the API, Probes what
-- reports on the process, Admin the endpoints that dump and load the state, Metrics the counter of
-- refused requests, Ui the signed cookie with its key, the session, the forms and the pages with the
-- text of their templates, Seed the demonstration state. The HMAC, the decimal text of an `i64` and the
-- encodings are arguments. JSON is an interface of operations with the laws that serde_json
-- documents (Server/Json.antt); the JSON parser, the environment and the time are arguments.
-- Std has the parts of Rust's library that the crates use: a hash map and a hash set as entries with
-- distinct keys, whose order of traversal is a parameter (any rearrangement), the stable sort, and
-- facts on the operators of bits. Prelude has `i64` as integers with the wrap-around of `+= 1` in the
-- release build written out, strings as lists of code points, and `Result`. Tests has runs and each
-- theorem at an input, and in Tests/Suite the crates' own unit tests, run on the definitions.
--
-- Bounds. Theorems on clocks and identifiers assume that the counters stay below the maximum of
-- `i64` for the calls or the events at hand, and one shows what happens there. The default
-- `Clock::set_now` loops on fuel, the distance to the value, which is shown to be enough. `limit` and
-- the length of a list are unbounded, where the source has `usize`. Threads are numbered, and there may
-- be any number of them.
--
-- Not modelled: the start-up of main.rs but for the state that it makes; how the framework matches a
-- path to a route and decodes a request; durations and the log; and poisoned locks, which need a panic
-- inside a critical section that has none.
pub mod Prelude
pub mod Std
pub mod Clock
pub mod Ids
pub mod Domain
pub mod Store
pub mod Service
pub mod Server
pub mod Tests
