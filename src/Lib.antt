-- ===== src/Lib.antt =====
-- zolem, a local mock server for LLM provider APIs.
--
-- Profiles say how a provider answers and listeners say where it listens; a store keeps both
-- behind checks. A request to a listener meets the Host check, gets the context of its profile
-- and numbers from the profile's counters, may be answered by a forced error or after a delay,
-- and where the backend has fixtures, by one that the matcher finds. A recorder keeps what was
-- asked and answered.
--
-- Files, with the code they model:
-- - Base and its children: shared names, tests on numbers, lists, association lists for Go maps,
--   integers as two kinds of naturals, text as code points.
-- - Upstream: internal/upstreamip/upstreamip.go, with the part of net/netip that it calls.
-- - Runtime: internal/runtime. Namespace, Profile, Host and Store are store.go
--   (validateFixtureNamespace; ValidateProfile and its parts; NormalizeAllowedHosts and
--   HostHeaderAllowed; Store's methods), Bind is bindpolicy.go, Counters is counters.go, Request
--   is context.go, backend.go, error_type.go and response_model.go, Delay is
--   StreamDelayForRequest of store.go.
-- - Fixture: internal/fixture. Sequence is sequence.go, Engine is CompiledCELMatcher of cel.go,
--   Selector/Legacy and Selector/Yaml are the selectors of selector.go and static_selector.go,
--   Matcher is matcher.go, with wasm_selector.go from its module's output on.
-- - Recorder: cmd/zolem/recording.go. Log is the three recorders, Capture the bodies, Stream the
--   accumulator of SSE and NDJSON, with WriteEvent and WriteData of internal/response/sse.go,
--   Redact the redaction of headers.
-- - Startup: cmd/zolem/startup.go and bindpolicy.go: the flags' listener and policy; App is
--   buildLocalStartupAppForRuntime with what it opens, and buildLocalHandler.
-- - Launch: cmd/zolem/main.go from the parsed flags on: validateFixedModeFlags, and what main
--   gives to runLocalAdmin or runLocal.
-- - Control: cmd/zolem/local_admin.go with internal/adminapi/adminapi.go: Profiles and Listeners
--   are localControlPlane's methods, Steps their parts under interleaving, Admin the HTTP routes.
-- - Tools: internal/provider/backend/toolsynth.go: Gemini is NormalizeGeminiSchema, Values
--   cleanValue, cleanNumber and lookupPointer, Walker and Simple are simpleArgs with
--   simpleWalker.
-- - Providers: writeForcedProfileError in errors.go of each provider of internal/provider, a
--   module each.
-- - Wasmgen: internal/wasmgen/validate.go, and the two tables of exports of generator.go.
-- The Laws, Bounds, Events, Listing, Sorting, Best, Entries, Ends, Keys, Leb and Normal below a
-- module prove, and so do Startup/App/Ledger, Control/Owners, Control/State, and what stands below Control/State,
-- Control/Steps, Control/Admin and Tools/Simple; Samples and Tests run examples.
--
-- Names keep the source's words. A method that changes its receiver returns the new state beside
-- its result. `data_` and `module_` are the fields Data and the loaded WASM module.
--
-- Parameters, for code outside the repository: Net (package net, url and strconv), the random
-- source of a delay, Engine (CEL and WASM), Disk (encoding/json and a file), Encoding (UTF-8 and
-- base64), Env (the schemas, fixtures, WASM modules and addresses that one build gets), Files
-- (which directories there are, and joined paths), Json (the decoder of request bodies), Numbers
-- (ParseFloat, Atoi, big.Rat and PathUnescape), the JSON codec and ToLower of Tools, and
-- trim_space and Names (packages strings and net/http). The laws assumed of them are that of
-- Intn: what it draws is below its bound; that of ToLower, that it changes nothing it has made;
-- and that of the encoder of Tools, that an object without members is written {}.
--
-- Fuel: feed_loop takes the length of the buffer, and every round takes a byte or more off it, so
-- the loop ends before the fuel does; sections_from takes the length of the module, of which
-- every section takes two bytes or more. The walk of simpleArgs has one visit more of fuel than
-- there is work, and every visit spends work. Counters of profiles wrap at 64 bits as written;
-- the ids of the recorder and lengths are unbounded, since memory ends before they do; the
-- milliseconds and nanoseconds of a delay wrap as int64 does. A slice past the end of its bytes
-- is a panic.
--
-- What is open is a list of numbers: a server and a WASM runtime take the next number when they
-- open. An upsert of a listener is three steps, before its lock, under it and after it; every
-- other operation changes state under one lock and is one step. The first step of an upsert reads
-- the store once, so it may stand as one.
--
-- Not modelled: the locks themselves, the texts of errors, the command-line client, the request
-- handlers of the providers, loading of fixtures and templates, and the running of WASM modules.
pub mod Base
pub mod Upstream
pub mod Runtime
pub mod Fixture
pub mod Recorder
pub mod Wasmgen
pub mod Startup
pub mod Launch
pub mod Control
pub mod Tools
pub mod Providers
