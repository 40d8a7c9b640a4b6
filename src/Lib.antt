-- ===== src/Lib.antt =====
-- The gateway lets an agent write a Lua program, runs it on the proveno VM, checks and records each
-- tool call that the program makes, signs and stores the trace of the run, and replays any stored
-- trace later. These modules model that program.
--
-- How the parts work on one request. The server (Server, src/server.rs) finds the principal of a
-- bearer token (Server.Tokens, Server.Digests) and hands the program to the engine (Engine,
-- src/engine.rs). The engine describes the tools that the principal may call (Description,
-- src/description.rs), compiles the program behind a prelude that declares them (Dialect and
-- Dialect.Rules, src/dialect.rs), stores source and description (Store and Store.Keys,
-- src/store.rs), and runs the VM over a host (Host, src/host.rs). For each call the host turns the
-- arguments to JSON and the answer to a table (Values, src/values.rs), checks the schema (Schema,
-- src/schema.rs) and the policy (Policy, src/policy.rs), and calls the server behind it (Downstream
-- and Downstream.Connect, src/downstream.rs). The trace (Trace, src/trace.rs) is signed and stored.
-- Replay (src/replay.rs) reads it back, compiles the stored source and runs it over the recorded
-- answers. Config (src/config.rs) is the configuration, Engine.Names and Engine.Start the start-up
-- (check_lua_names and Engine::new), Server.Start the start of the server and a request over HTTP;
-- Main and Main.Commands (src/main.rs) the commands and their exit codes, and Main.Replays the
-- command `replay` on what the gateway has left. Demo has what demo/ runs around the gateway: the
-- wallet (demo/wallet/src/main.rs) and the market (demo/market/src/main.rs) behind it and the client
-- (demo/client/src/main.rs) in front of it, and the server of examples/stdio_env_server.rs. Paths are
-- from the root of the repository. A function of the code has a definition of its name; where the
-- code branches with early returns, what follows each return is a definition of its own.
--
-- What is a parameter: the Lua compiler and VM (Core), and the crates and the system behind Crypto,
-- Codec, Serde, ProvenanceSerde, JsonSchema, Rmcp, Connector, TomlReader, Tools, ServerLibrary and,
-- under the demo, Library, Alloy and the client's Rmcp. What the gateway relies on stands in
-- records that the theorems take: RecordsCalls (the transcript has the calls that the host
-- answered), ReplaysRuns (a run over its own records gives the same result and meters),
-- HashFixesRuns (programs of one hash run alike), IsSound (a key accepts what it signed) and
-- Digests (a digest has 32 bytes).
--
-- How state is modelled: the host, the file system and the servers behind the gateway are values
-- that an operation takes and returns. The file system is a map of paths; what the system refuses
-- in an operation is its argument Faults, so a theorem about every Faults covers every error path.
-- A history of a store is a sequence of requests, the servers changing in any way between two
-- (Replay.History). A text is the list of its code points. A panic is a result of its own, but for
-- those named below. The line count of a prelude is taken modulo 2 ^ 32 as the code casts it. Loops
-- are structural recursion; the one bound on a recursion is on the digits of a decimal, which are no
-- more than the number and one.
--
-- Not modelled: sockets, the async runtime and shutdown, the argument parser, other processes that
-- write to the store, and the text of errors that only gain context on their way out. A few steps of
-- the code that rest on a library alone are taken to succeed, and no theorem says that they do: the
-- `expect`s on core's canonical JSON (that it is UTF-8 in output_json, and JSON in execute), the one
-- on serializing a trace to be signed (src/trace.rs), the VM's own task, whose panic the engine
-- resumes, and the look at a trace's path before it is stored, which the system may refuse
-- (src/store.rs, put_trace). Examples holds a small world of libraries and one use of each theorem
-- in it.
pub mod Prelude
pub mod Json
pub mod Core
pub mod Trace
pub mod Policy
pub mod Downstream
pub mod Schema
pub mod Values
pub mod Host
pub mod Store
pub mod Dialect
pub mod Description
pub mod Config
pub mod Demo
pub mod Engine
pub mod Replay
pub mod Server
pub mod Main
pub mod Examples
