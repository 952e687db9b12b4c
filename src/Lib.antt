-- ===== src/Lib.antt =====
-- Verification of the OAuth 2.0 client credentials library, its Go client and its sample server.
--
-- The program has an authorization server (pkg/oauth2), a client of it (pkg/oauth2/client) and a
-- sample resource server (sample-server). The server's service keeps clients and tokens in a store,
-- draws ids, secrets and tokens from a random reader, and writes metrics, spans and an audit log.
-- HTTP handlers call the service; middleware asks it to validate a Bearer token before a protected
-- handler runs. The client keeps a cache of tokens by resource.
--
-- Common: helpers. Logic has Boolean tests and case lemmas, Int has signed integers and `int64`
--   arithmetic, Text has what is used of package `strings`, Dict has Go maps as association lists,
--   Words has lemmas on texts with no space.
-- Locked: a state behind a `sync.RWMutex` and the goroutines that call its methods.
-- Oauth2: pkg/oauth2.
--   Error: the sentinels of types.go, wrapping with `%w`, `errors.Is`.
--   Exec: results and the monad of methods that change a state and may fail.
--   Types, Types/Uri: the records and ValidateAbsoluteURI of types.go. Types/Platform is the record
--     of the code outside the repository that they and the service call.
--   Store: the interface of store.go; Store/Memory is store_memory.go; Store/Contract states what
--     the service relies on, as two maps; Store/Refines connects the two. Store/Abstract is the
--     store whose state is the two maps.
--   Encoding: hexadecimal and unpadded base64url text of bytes.
--   Service: service.go. The fields and options are in Service, RegisterClient in Service/Register,
--     IssueToken in Service/Issue, ValidateToken, IntrospectToken and RevokeToken in
--     Service/Validate, the random helpers and ComputeTokenHash in Service/Random.
--     Service/Lifecycle is about several calls in a row, Service/Overlap about calls that overlap,
--     Service/Options about the options, Service/Sizes about lengths, and Service/Abstract compares
--     a call over a store with the call over two maps.
--   Telemetry: telemetry.go, with NewTelemetry in Telemetry/Setup. Http and Handlers: handlers.go.
--     Middleware: middleware.go.
-- Client: pkg/oauth2/client. Client/Requests has the HTTP calls of client.go, Client/Cache has
--   GetToken, Client/Transport is transport.go, Client/Network is the interface of `net/http` and
--   `encoding/json`.
-- Certificate: sample-server/internal/certificate: Model is model.go, Store is store.go, with what
--   its callers rely on in Store/Contract, and Handler is handler.go, over any store.
-- Server: the protected routes of sample-server/main.go; Server/Guarded says who may use them,
--   Server/Served what a client that follows the protocol gets. Server/System is the whole of that
--   file, with RegisterRoutes of pkg/oauth2/handlers.go: the configuration, the table of routes,
--   and `serve`, the step that a request to any of them makes on the two stores; System/Runs
--   compares runs of requests over stores. Server/Connected puts the client of pkg/oauth2/client and
--   the endpoints of pkg/oauth2 at the two ends of one network.
-- Cli: cmd/oauth-cli/main.go. Cli has what the command register makes of its flags, Cli/Declared
--   the commands and their flags, Cli/Shell the output, Cli/Commands the actions.
-- Tests: the theorems listed below at concrete inputs.
--
-- State is passed explicitly. The `World` of the service holds the store, what the random reader
-- has left, the telemetry, how often the clock was read and how often bcrypt drew a salt; the
-- `World` of the client holds the cache, the other side of the network and the clock's count. A
-- clock is a function from the number of earlier readings to the time; nothing is assumed of it, so
-- a theorem that names a time names the reading. A time is a number of nanoseconds since the Unix
-- epoch with no bound, and a `time.Duration` is one too; the two places where Go's `int64` shows,
-- the product of the client's cache and `Time.Sub`, are written out. The fields expires_in and exp of
-- the responses, which are `int64` in Go, are integers with no bound. Text is a list of code points.
--
-- The methods of the two memory stores hold their lock from the first read to the last write, so
-- each is one step; Oauth2/Store/Locked and Certificate/Store/Locked have the same methods in the
-- parts that the lock makes, for any number of goroutines whose steps interleave. Between two calls
-- other ones may run, which the theorems on several calls allow for by a hypothesis on the store
-- that the later call finds. Oauth2/Service/Overlap has the calls of the service that overlap:
-- IssueToken, which uses the store twice, is two steps there. GetToken is modelled in the
-- two parts that its two locks make, and Client/Cache/Callers interleaves the steps of any number
-- of callers. Records are copied in and out of the stores, so no aliasing is modelled.
--
-- No function needs fuel: every loop is over a list.
--
-- Parameters: url.Parse, `%q`, SHA-256, bcrypt and the conversion of a duration to seconds
-- (Oauth2/Types/Platform), with the hypotheses that a hash has 32 bytes and that a password matches
-- the hash made of it; gin's parsing of a request (fields of Request and ApiRequest); net/http and
-- encoding/json (Client/Network, and Console of Cli/Shell for what the commands call themselves);
-- OpenTelemetry (Oauth2/Telemetry/Setup); of sync.RWMutex, what is documented: a goroutine that
-- holds it by Lock holds it alone (the step `lock` of Locked); the values of the flags, which the
-- package `cli` reads; the environment variables; the random bytes. The network between the client
-- and the server is a `Wire`, of which IsFaithful (Server/Connected) is assumed: a form arrives with
-- its fields, Basic credentials arrive if the name has no colon, a status arrives, and what
-- `encoding/json` wrote is read back, a time if its year has at most four digits; and IsAimed
-- (Server/Connected/Tokens), that a request for one of the four paths that the client posts to can
-- be made and arrives at it.
--
-- Not modelled: the values of the durations in telemetry.go; the hook beforeWriteLock of the
-- client; starting and stopping the process, its log of requests and the page that promhttp prints
-- for /metrics; the texts of usage of the command line tool; internal/version; scripts.
pub mod Common
pub mod Locked
pub mod Oauth2
pub mod Client
pub mod Certificate
pub mod Server
pub mod Cli
pub mod Tests
