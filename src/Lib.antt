-- ===== src/Lib.antt =====
-- NeKiro samples: two agents, written in Go, that answer A2A requests of the NeKiro Router and
-- show nested calls between agents. Runtime A passes a request on through the Router, behind an
-- agent framework; Runtime B has the state: deterministic fixtures, the tasks that its streams keep,
-- nested calls. Both have a command that reads settings and starts a host, and the route of
-- internal/challengeproof before their own handler. This library models all of these.
--
-- How Runtime B is put together. The SDK's JSON-RPC server calls runtime-b/handler.go with one
-- request at a time per goroutine. OnSendMessage and OnSendMessageStream first let parseFixture
-- (runtime-b/fixture.go) read the request. A stream creates a task in the handler's map, yields
-- the events of its fixture's script, and completes the task or, by a deferred function, removes
-- it; a hold stream waits for OnCancelTask, which closes the task's channel. OnCancelTask counts
-- its requests on marked tasks, and OnSendMessage reads the counts (cancel-observed). The nested
-- fixture calls the Router (runtime-b/nested.go) in the lineage of the caller's credential.
--
-- How Runtime A is put together. OnSendMessage (runtime-a/handler.go) answers the capability
-- runtime.echo from the request alone. For any other it takes the call's context from the headers,
-- and lets the framework's runner run the agent (runtime-a/runtime.go), which calls the target
-- through the Router once and combines the result (runtime-a/nested.go); the loop over the runner's
-- events gives the text that combinedData reads. A command (cmd/*/main.go) loads the settings, the
-- registration and the handler, puts authentication and the challenge route before it, and hands it
-- to the SDK's host.
--
-- The files. Base and its children hold the shared helpers: results of Go calls (a value, an
-- error, a panic), maps as association lists, tests, list lemmas. A2a and Platform hold the data
-- of the A2A and NeKiro packages and, as the record `Library`, the functions of those packages
-- and of the Go library that the code calls (SHA-256, encoding/json, the validation of a context).
--   RuntimeB.Identity   runtime-b/identity.go, and the owner and observation texts of handler.go
--   RuntimeB.Fixture    runtime-b/fixture.go: parseFixture, cloneJSONValue
--   RuntimeB.Clone      runtime-b/handler.go: cloneTask and the functions under it
--   RuntimeB.Config     runtime-b/config.go: LoadConfig and Validate
--   RuntimeB.Nested     runtime-b/nested.go
--   RuntimeB.Handler    runtime-b/handler.go: OnCancelTask, createWorkingTask, completeTask,
--                       removeWorkingTask, takeCancellationObservation; Handler.Get: OnGetTask
--   RuntimeB.Registry   an abstract table of the tasks and counts, and the handler's operations on it
--   RuntimeB.Send       runtime-b/handler.go: OnSendMessage and its messages
--   RuntimeB.Events     runtime-b/handler.go: streamMessage, artifactEvent, statusEvent
--   RuntimeB.Stream     runtime-b/handler.go: OnSendMessageStream
--   RuntimeB.System     the handler with its running streams, and requests in any order
--   RuntimeB.Configured NewConfiguredHandler and newNestedService: a server from its settings
--   RuntimeB.Unsupported runtime-b/handler.go: the operations that answer `unsupported`
--   RuntimeB.Server     runtime-b/server.go: the HTTP handler and the listen address
--   RuntimeB.Command    runtime-b/cmd/runtime-b/main.go
--   RuntimeA.Config     runtime-a/config.go: LoadConfig and Validate
--   RuntimeA.Nested     runtime-a/nested.go
--   RuntimeA.Engine     runtime-a/runtime.go: the run, its loop over events, and the agent
--   RuntimeA.Handler    runtime-a/handler.go: OnSendMessage and the functions under it
--   RuntimeA.Server     runtime-a/handler.go: the HTTP handler
--   RuntimeA.Command    runtime-a/cmd/runtime-a/main.go
--   Settings            what both agents read their settings with
--   Web                 HTTP handlers, the ServeMux and the authentication middleware
--   Command             what both commands share: registration, shutdown time, the SDK's host
--   Identifier          the pattern of identifiers that the settings and challengeproof share
--   ChallengeProof      internal/challengeproof/handler.go: ServeHTTP, validProof; Start: NewHandler
-- The functions of other packages are records that the definitions take as arguments: Library (one in
-- Platform, one in ChallengeProof), Environment, Framework, Web, Host and Files. Where a theorem relies
-- on more of them, that is a named hypothesis: CopiesAreStable, InputsDecode and ObjectsDecode of
-- encoding/json, Faithful and Completes of the agent framework, Protects of the middleware.
-- Theorems stand in the children, the modules called Tests and Examples hold runs.
--
-- How state and concurrency are modelled. A pointer to a runtimeTask is an index into a list of
-- all tasks ever made, since the map and a running iterator share one. A function that holds the
-- handler's lock is one step from a handler to a handler. The iterator of OnSendMessageStream is a
-- machine that stops at every yield and at the select; `resume` runs it to its next stop, over
-- whatever handler it then finds, so that other requests come between any two of its steps. Within
-- a step it takes the lock at most once. No loop needs fuel: every function of the model is
-- structurally recursive.
--
-- Not modelled: the unlocked access of a stream to its task within one step, which a data race may
-- tear; the wrap of a count of cancellations, an int of Go, at 2^63, since counts are numbers without a
-- bound here; the lock that a panic of cloneTask in OnGetTask would leave held, which a well-formed task
-- does not reach; HTTP headers that the handlers write, the signals of the hosts, and the time of a response;
-- the insides of the framework, the SDK and net/http, which are parameters; the documentation site's
-- script, the workflows and the images, which are not Go.
mod Base
pub mod A2a
pub mod Platform
pub mod Identifier
pub mod Settings
pub mod Web
pub mod Command
pub mod RuntimeA
pub mod ChallengeProof
pub mod RuntimeB
