-- ===== src/Lib.antt =====
-- ZenTao MCP server: a model of the Go program and what holds of it.
--
-- The program bridges MCP clients to a ZenTao server. A request comes in over HTTP, passes the gate
-- of internal/middleware, which verifies who sends it, and reaches a tool, which sends requests to
-- the upstream server through the authenticating transport of the same package. Both ask one token
-- manager for tokens.
--
--   Auth/Options.antt        ZentaoAuthOptions (internal/middleware/zentao_token_manager.go)
--   Auth/Errors.antt         ZentaoLoginError, authThrottleError
--   Auth/Manager.antt        ZentaoTokenManager: its maps, the keys of a request, cleanupLocked
--   Auth/Manager/Enter.antt  token, from the top of its loop to the start of a login
--   Auth/Manager/Finish.antt token, from the answer of the login to its return; recordFailure,
--                            makeTokenRoomLocked
--   Auth/Manager/World.antt  the goroutines that share a manager, as lists of events
--   Auth/Login.antt          login and loginAt
--   Auth/Limiter.antt        accessLimiter (zentao_access_limiter.go)
--   Auth/Context.antt        auth_context.go and auth_handler.go
--   Auth/Transport.antt      authTransport (auth_transport.go)
--   Auth/Authenticator.antt  ZentaoAuthenticator (zentao_authenticator.go)
--   Json.antt                the values that encoding/json decodes; Json/Numbers.antt: strconv
--   Zentao/Values.antt       fields and arguments (internal/service/zentao/values.go)
--   Zentao/Dates.antt        dates and windows of days (values.go)
--   Zentao/Arguments.antt    ids, flags, scores, users and counters (values.go)
--   Zentao/Payload.antt      pickList and toRecords (internal/service/zentao/client.go)
--   Zentao/Listing.antt      listAll (client.go)
--   Zentao/Scope.antt        collectionPath, resolveObject, normalizeScope, scopeSelector (client.go)
--   Zentao/PlainText.antt    plainText, containsFold, daysBetween (values.go)
--   Zentao/Bugs.antt         the bug search (bugs.go): Bugs/Request.antt its arguments, Bugs/Filters.antt
--                            matches and bugSummary, Bugs/Describe.antt, Bugs/State.antt its data,
--                            Bugs/Search.antt SearchBugs and bugScopes
--   Zentao/Client.antt       getJSON and detail (client.go)
--   Zentao/Insights.antt     actionInsights and resolutionNote (analysis.go)
--   Zentao/Similarity.antt   titleTokens and similarity (values.go)
--   Zentao/Analysis.antt     relatedBugs (analysis.go); Analysis/Bug.antt AnalyzeBug
--   Zentao/History.antt      the lookup of similar bugs (history.go): History/Corpus.antt buildCorpus
--                            and refreshIndex, History/Verify.antt verifyHits, History/Lookup.antt
--                            FindSimilarBugs
--   Bugindex.antt            the in-memory bug index (internal/service/bugindex): Bugindex/Tokenize.antt,
--                            Bugindex/Build.antt (package.go), Bugindex/Search.antt
--   Mcp/Scalars.antt         the scalar cases of internal/controller/mcp/normalize_output.go
--   Models.antt              OperationMatcher (internal/models/operation_matcher.go)
--
-- Go strings are lists of code points, with their length in bytes where the code asks for it. Maps
-- are association lists; the order of the list stands for the order of `range`, and the theorems
-- hold for every order. Times and durations are natural numbers of nanoseconds; the clock is an
-- argument, and 0 is the zero time. The tokens of the limiter are exact fractions in place of
-- floating point numbers. SHA-256, the Unicode case table, JSON decoding and the answers of the
-- upstream server are arguments. A mutex makes each critical section one step, and a theorem on
-- lists of steps holds for every interleaving.
--
-- The composite tools read the upstream server page by page through listAll, whose page requests are
-- an argument of the model that may answer or fail in any way. Its loop runs on fuel, one page more
-- than the budget of records, which is shown to be enough. SearchBugs reads one such listing
-- for each scope with the budget that is left.
--
-- A refresh reads all bugs as the service account and installs a snapshot of them in the bug index;
-- a lookup ranks the snapshot and reads each candidate again as the caller, with the answer to each
-- read an argument.
--
-- float64, the packages fmt and time, html.UnescapeString and the Unicode tables are parameters
-- (Json.Floats, Zentao.Runtime, Bugindex.Arithmetic, IndexClock of the lookup, Ranker of the
-- analysis), and so are compiled regular expressions of operation rules; the fixed patterns of
-- values.go and tokenize.go are written out. The id of a record is a number, 0 for none.
--
-- Not modelled: the other composite tools of internal/service/zentao, which read several lists at
-- once or aggregate floating point numbers, the reading of the OpenAPI document, the execution of
-- its operations, and the start-up of the server.
pub mod Auth
pub mod Base
pub mod Bugindex
pub mod Json
pub mod Mcp
pub mod Models
pub mod Tests
pub mod Zentao
