-- ===== src/Lib.antt =====
-- A verification library of repo-extension, the Go server that keeps each coding session of the agent
-- bound to one bookmark of a jjlab repository.
--
-- The server keeps a table of mapping rows in Postgres (pg.go) and a cache of resolved sessions
-- (sessions_http.go). Lifecycle events of the agent (events_sub.go), a reconciler (reconcile.go) and
-- decisions on worksheets (worksheets.go) write the table and call two HTTP servers, jjlab
-- (client_jj.go) and the agent (client_agent.go); tool calls (tools.go) resolve their session with it
-- and read and write files, history and merge requests of its workspace.
--
-- Base        numbers, lists and texts. A Go string is the list of its bytes; a literal stands for
--             the codes of its characters, which are its bytes when it is ASCII.
-- Names       helpers.go: namingSession, parseSession, validSessionComponent, envNormalizePort.
-- Errs, I18n  errs.go and i18n.go. A text made by Sprintf is its format with its arguments.
-- Json        decoded JSON bodies and the readers of their fields.
-- Effects     programs: a value, an error, or a call with what follows it. World is the state that
--             the calls change and `run` runs a program alone; Sound is a logic of what programs
--             may call, and Follows a logic in which a call may depend on the answers before it; Run has
--             the rules for sequences of programs, Faults counts the fates that a run spends, and Preserves
--             has what of the tables a run keeps.
-- Store       pg.go: one program for each method of Store; Store.Tables says what the statements
--             do to the three tables under the constraints of the schema, Store.Distinct reads these
--             constraints as equations of fields, and Store.Refinement the table as a relation.
-- Cache       sessions_http.go: sessCache.
-- Http, Jjlab, Agent    client_jj.go and client_agent.go: requests, and the reading of replies.
-- Session     sessions_http.go and variables.go: resolveSession, bindRow, adoptBookmark and the
--             projection to session variables.
-- Surface     sessions_http.go: the routes, the HTTP handlers and what they reply.
-- Discipline  what a program may write to the table and to the cache, and what it then reads.
-- Lifecycle, Reconcile, Worksheets    the handlers, with their theorems in child modules.
-- Tools       tools.go. Files, Listing, History, Merges and Bookmarks, with their child modules, have one
--             function for each tool and Dispatch has the map of handlers; Sessions has sessionBase,
--             refBase and sessionBaseXO; the root has splitMatch, diffLines (its hunk, before it is
--             printed) and applyLineEdit, with the panic of a slice out of range as an outcome. Host is
--             the code that the tools take from elsewhere: the decoding of arguments, base64,
--             strings.TrimSpace, the conversion of a float64 and the printing of a map. Effect has what
--             the tools call: a policy says which calls are allowed, Readers, Writers, Proposals and
--             Merging go through the tools, and Quiet, Own and Keeping are three policies.
-- Startup     pg.go, main.go and helpers.go: OpenStore with the creation of the database, the configuration
--             from the environment, and the order in which main starts and stops. Its programs are
--             values of `Boot`, whose calls are those of the driver, the bus and the SDK.
-- System      main.go: the entry points over one state, with every interleaving of their calls. IsPlain
--             marks the starts whose names hold no colon, which the source does not test.
--
-- A handler is a value of `Prog`, with one call for each call of the source and in its order. The HTTP
-- servers, the message bus, the environment and ORDER BY are a parameter (`Net`): nothing is assumed of
-- the answers of the services, and of ORDER BY that it reorders the rows. A database call is one atomic
-- statement, and may be done, be refused, or be done with its acknowledgement lost. The step relation
-- of System interleaves the calls of any number of programs, lets time pass and lets other clients
-- change the services, and restarts the process with an empty cache. No recursion of the source needs
-- fuel: every loop is over a list. Only the reader of Tools.Paging, who calls read until the file has
-- ended, has a number of calls, and the number of lines is enough. The loop of the reconciler is the
-- list of what its select meets; one wake-up more than the faulty database calls to come is enough.
--
-- The iteration order of a Go map, over sessions, in explore and in the listing of repositories, is the
-- order of the reply of jjlab. Contexts that end and timeouts are failures of the call that they end.
-- Not modelled: logging, signals, the ticker itself, the contents of the manifest, the encoding of JSON
-- bodies, the set-up of the HTTP clients, and the texts that Sprintf makes of a format.
pub mod Agent
pub mod Base
pub mod Cache
pub mod Discipline
pub mod Effects
pub mod Errs
pub mod Http
pub mod I18n
pub mod Jjlab
pub mod Json
pub mod Lifecycle
pub mod Names
pub mod Reconcile
pub mod Session
pub mod Startup
pub mod Store
pub mod Surface
pub mod System
pub mod Tools
pub mod Worksheets
