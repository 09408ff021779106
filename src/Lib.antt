-- ===== src/Lib.antt =====
-- FocusFlow, the backend: a tree of focuses with goals, kept in a store behind two services and a
-- JSON API over HTTP with signed session tokens. Paths are from the root of the repository.
--
-- A request goes through the checks of backend/internal/api/handler.go (CORS and the query
-- parameters), a generated router, the check of its session token (backend/internal/auth), a handler
-- (backend/internal/api/user.go), the mappers between the contract and the internal models
-- (backend/internal/api/model), a service (backend/internal/service) and a store
-- (backend/internal/storage). The files model these parts as follows.
--
--   * Model: backend/internal/model. A UUID is a number, a time is in nanoseconds since 1970, a
--     pointer is an Option. `FocusFields` is Go's `Focus` but its slice `Children`, and `Focus` has
--     both.
--   * Storage, Repositories: the errors and the interfaces of backend/internal/storage. A method
--     takes the state of the store and gives an `Outcome` and the state that it leaves.
--   * Fake: backend/internal/storage/fake/store.go, the store in memory. Fake/State has its state,
--     two maps, and what a call takes from outside, the time and the identifier that is drawn.
--     Fake/Focuses and Fake/Goals have a function for each method, named after it (`CreateFocus` is
--     `create_focus`), Fake/Hierarchy the checks and the deletion along the hierarchy,
--     Fake/Aggregate what is computed for a result (`goalAggregateLocked` is `goal_aggregate`), and
--     Fake/Paging `pageItems`. Fake/Valid has the well-formedness of a store. Fake/Calls has
--     histories: each method holds the mutex from start to end, so a history is a sequence of whole
--     calls. Fake/Listing has clients that follow the cursors.
--   * Forest: hierarchies in general: chains of parents, subtrees, what keeps a forest one, the
--     bound on its depth, and in Forest/Promise the abstract machine whose states are hierarchies,
--     which both stores implement (Fake/Calls/Promise, Postgres/Calls/Promise).
--   * Auth: backend/internal/auth/auth.go, credentials and tokens.
--   * Service: backend/internal/service/service.go, over any store.
--   * Api: Api/Wire has the data of the generated contract, Api/Mappers and Api/Outgoing the
--     mappers, Api/User the handlers over any store, Api/Handler the checks before the router,
--     Api/Public the login, the cookies and the check of the session of a request, and Api/Served
--     the protected operations in one function. Repositories/Leads has what a pair of stores may
--     promise of the state that its methods leave. Api/Served/Leads carries such a promise over to
--     requests, and Api/Served/Valid and Api/Served/Sound fill it for the two stores.
--     Api/Served/Answers compares the answers with the responses of contracts/openapi.yaml, and
--     Api/Served/Missing has the requests for what is not there.
--   * Config: backend/internal/config/config.go.
--   * Postgres: backend/internal/storage/postgres on the tables of
--     backend/migrations/000001_initial_schema.sql. Postgres has the pages, Postgres/Rows the row
--     models, Postgres/Schema the constraints, Postgres/Sql the tables and the actions on them,
--     Postgres/Statements and Postgres/GoalStatements one operation for each SQL statement,
--     Postgres/Descent the recursive query and the cascade. Postgres/FocusStore and
--     Postgres/GoalStore have a function for each method, which runs the statements of the method
--     in their order. Postgres/Sound has what holds of the tables, Postgres/Calls histories of
--     calls, Postgres/Listings clients that follow the cursors, and Postgres/FocusStore/Race the
--     statements of two calls interleaved.
--   * Common: tests, lists, association lists, text and sorting. Tests: concrete runs.
--
-- A map of Go is an association list; Go walks a map in any order, and here it is walked in the
-- order of the list. The results that such a walk collects are sorted, or the walk deletes and the
-- theorems say by lookups what is left. `sort.Slice` is an insertion sort; the keys sorted by are
-- unique, so every sort gives the same list.
--
-- The two recursions up and down the hierarchy run on fuel, and `overflow` says that it ran out,
-- where Go would go on for ever. The fuel is the number of focuses, which is above the length of
-- any chain of parents in a forest (Forest/Bound). The recursion of `focusAggregateLocked` is
-- bounded by the depth that is asked for, and the page loop of a client by its number of calls.
--
-- A method of the PostgreSQL store is an action on the tables that stops at the first error. Each
-- statement is atomic; it may fail without an effect, as a sequence of faults says, so the theorems
-- hold wherever a connection is lost. A commit whose answer is lost is not among these faults. The
-- recursive query and the cascade go down the hierarchy level by level, on as much fuel as there are
-- rows: a level of a forest lies deeper than the one before, and a cascade removes a row at every
-- level. `other` carries the text of an error, and for a violated constraint its code.
--
-- Parameters: the text of a UUID, `strings.ToLower`, Argon2, HMAC, base64 and JSON, and for the
-- configuration `url.Parse` and `uuid.Parse`. What the theorems need of them is a named hypothesis
-- (`UuidText`, `CursorText`, `Laws`).
--
-- Not modelled: the pool of connections, whose statements are run one at a time; the rounding of
-- times to microseconds and the refusal of NUL in a text by PostgreSQL; the generated router
-- and its decoding; server start-up; the frontend.
pub mod Common
pub mod Forest
pub mod Storage
pub mod Model
pub mod Repositories
pub mod Fake
pub mod Auth
pub mod Service
pub mod Api
pub mod Config
pub mod Postgres
pub mod Tests
