-- ===== src/Lib.antt =====
-- aoa-conform asks what an MCP server and its authorization server support, and whether client
-- surfaces can be used with it. A run discovers the endpoints, resolves a client, evaluates each
-- check of a registry behind its gates, and adds up the entries: counts, a support matrix, and a
-- verdict per client surface. This library models that core and proves what it promises.
--
-- Files, and the code that they are about:
--   Model, Model/Words      conformance/check.go, conformance/report.go: the data that a run passes
--                           around (Result is CheckResult, Check without its functions CheckMeta)
--   Gate                    conformance/check.go (needs, Evaluate), conformance/gates.go
--   Evidence                conformance/model_verdict.go (weighEntries): one loop with four pointers
--   Compat                  conformance/model_verdict.go: requirementOutcome, EvaluateModels
--   Profiles                conformance/model_profiles.go: LoadProfiles, SelectSurfaces
--   Capability              conformance/capabilities.go: the support matrix
--   Report                  conformance/report.go: Summarize, HasFailures
--   Http, Http/*            probe/http.go, probe/clientauth.go, probe/exchange.go
--   Mcp                     probe/mcp.go: MCPRequest, with its retry and its legacy fallback
--   Discover, Discover/Data probe/discover.go: Discover, fetchASMetadata, and their data
--   Register                probe/register.go: Register, DeleteRegistration
--   Resolve                 conformance/resolve.go: Resolve and the choices that it makes
--   Runner                  conformance/runner.go, conformance/registry.go, conformance/tokens.go
--   Markdown, Markdown/Text conformance/report_markdown.go: the sections of the scorecard, its text
--   Cli                     cmd/aoa-conform/main.go: profiles, exit code, verdicts, cleanup
--   Checks, Checks/*        conformance/checks_*.go: rows, gates and Run functions; probe/dpop.go, the
--                           header method of probe/present.go, ProbeCIMDAuthorize of probe/cimd.go;
--                           Checks/Registry: DefaultRegistry of conformance/registry.go
--   FakeAs, FakeAs/*        internal/fakeas/as.go, internal/fakeas/dpop.go: the fake authorization
--                           server, a state behind a mutex and a handler for each path
--   FakeRs                  internal/fakeas/rs.go: the fake resource server and its challenge
--   Prelude, Prelude/*      shared names, lemmas on lists, the functions of Go's strings, sort.Strings
--   Tests, Tests/*          the model run on concrete reports, targets and servers
-- A module below a component (Evidence/Order, Mcp/Requests) holds the proofs that it is named for.
--
-- How the parts meet: Evidence is used by Compat (entries of an RFC label) and by Capability
-- (entries of an id prefix). Http is a call over a transport; Mcp, Discover, Register and Runner send
-- only through it. Runner composes Discover, Resolve and the checks of Gate; Cli composes Runner
-- with Profiles, Compat and the cleanup of Register. FakeAs and FakeRs are the other end of
-- the network in the program's own tests; FakeRs/Challenge reads the challenge with Discover, and
-- Checks/Detection runs a check against FakeAs. Checks/Registry lists all checks in the order of
-- the program, and Checks/Registry/Index runs them with Runner.
--
-- State and effects: a function that sends requests takes a transport, a function from a request and
-- a state W of the network to a reply or an error and the next state, and returns the state that it
-- leaves. Go's (value, error) is a Result or, where both can be set, a record of two options. A
-- panic of a check is a value (Ran). A map with a fixed set of keys is an association list; a
-- set is a list. A []byte is a String. Durations are natural numbers read off two states.
--
-- Parameters: the network (net/http), encoding/json, the YAML parser, base64, url.Values.Encode,
-- net/url, net.ParseIP, keys and the signing and the verification of tokens and proofs (jwx),
-- randomness, the listener of a client document, and the clock. They are arguments of the
-- definitions that use them. FakeAs/Serials/Run assumes that a signature fixes the jti that was
-- signed, FakeAs/Delegation/Grants, where an exchange is answered, that the server can sign, and
-- Checks/Detection that a form posted to the fake server arrives with its token and the
-- introspection document comes back as written.
--
-- Fuel: only the decimal text of a number uses it (Prelude/Decimal), with one more than the number,
-- and more fuel changes nothing. All other loops are structural.
--
-- Not modelled: the JSON writer; the interactive and JWKS probes; the listener that hosts a client
-- document; the body and query methods of probe/present.go, which no check uses; the demonstration
-- server of integration/mcpserver; flags and TLS set-up.
pub mod Prelude
pub mod Model
pub mod Evidence
pub mod FakeAs
pub mod FakeRs
pub mod Profiles
pub mod Compat
pub mod Capability
pub mod Report
pub mod Gate
pub mod Http
pub mod Mcp
pub mod Discover
pub mod Register
pub mod Resolve
pub mod Runner
pub mod Checks
pub mod Cli
pub mod Markdown
pub mod Tests
