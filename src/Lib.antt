-- ===== src/Lib.antt =====
-- A verification library of gottem.link, a link shortener in Go with an SQLite store, an API for
-- its management and a page for its administration.
--
-- How the program's parts interact. A visitor's request goes to the public lookup of
-- handlers/redirect.go, which asks db/ for the active redirect of a slug and hands the access, or the
-- miss, to the bounded queue of db/stats.go; its worker writes the counts back to db/, directly or
-- through the requests of db/http_stats.go to another process, whose handlers/access.go answers them.
-- The API for the management, handlers/management.go, checks what it is given by
-- validation/validation.go and changes redirects through db/redirects.go; handlers/auth.go and
-- handlers/session.go stand before it with tokens and sessions. routes/routes.go decides which
-- handlers exist and which token they need, from the configuration that config.go has checked. At
-- the start db/db.go brings the database to the current schema. The client cmd/gottem calls the API.
--
-- Which file models what:
--   Base, Base/...        tests, lists, texts as lists of bytes, decimal numbers, parsed URLs, and
--                         the lemmas on them that the parts share
--   Validation/Slug       ValidateSlug of validation/validation.go
--   Validation/Destination  ValidateDestination and its helpers
--   Db/Sql, Db/Store      what db/ uses of SQLite, and the tables redirects and slug_misses of
--                         db/db.go as lists of rows with the last id that was given
--   Db/Redirects          db/redirects.go without the import, and the lookups of db/db.go
--   Db/Import             ImportRedirects and RedirectImportConflicts of db/redirects.go
--   Db/Misses             db/misses.go
--   Db/Invariant, Db/Reach  the invariant of the tables, and all sequences of operations
--   Db/Counted            what an update of a count and of a time is, for redirects and misses
--   Db/Stats              db/stats.go: AccessWriter with its channel, its producers and its worker as
--                         a relation of steps
--   Db/Schema, Db/Migrations  the schemas and the migrations of db/db.go
--   Db/Remote             db/http_stats.go
--   Handlers/Slug         handlers/slug.go
--   Handlers/Redirect     handlers/redirect.go
--   Handlers/Response     what handlers/management.go reads and writes
--   Handlers/Management   handlers/management.go without export and import
--   Handlers/Transfer     the import of handlers/management.go
--   Handlers/Export       the export of handlers/management.go
--   Handlers/Auth, Handlers/Session  handlers/auth.go and handlers/session.go
--   Handlers/Access       handlers/access.go
--   Handlers/QrCode, Handlers/Health  handlers/qr.go and handlers/health.go
--   Backup                the redirects of a backup and their validation, of backup/backup.go
--   Backup/Json, Backup/Decode  the walk for duplicate fields, Decode and MarshalJSON of it
--   Config, Routes        config.go, and routes/routes.go as a table of routes
--   Client/Arguments      cmd/gottem/run.go, with Client/Flags and Client/BaseUrl
--   Client/Requests       the requests and answers of cmd/gottem/client.go
--   Client/Run, Client/Confirm  run of cmd/gottem/output.go, and its question before a deletion
--   Examples              concrete parameters, and each theorem applied to them
-- The modules below a component hold its theorems: Db/Redirects/Get is what GetRedirect shows after
-- each operation, Handlers/Management/Atomic what errors leave, and so on.
--
-- How code corresponds to definitions. A function keeps its name in lower case with underscores. A
-- method of the store takes the store and gives its result with the new store; an error is a value
-- of DbError, ConfigError, ValidationError and so on. Texts are lists of bytes. An SQL statement
-- is read as an operation on the rows. Which database calls fail is an argument (`Env`, and
-- `Conditions` of the migrations), so that each error path is taken for some environment; a
-- transaction that does not commit leaves the tables. A check before a handler takes the handler
-- as a function on a state. Code outside the repository is a parameter: the collation and the
-- dates of SQLite (`Sqlite`, with the documented laws of NOCASE in `SqliteLaws`), the Unicode
-- tables (`Unicode`), the parsers of URLs and addresses (`Net`), JSON and times (`Codec`,
-- `TokenCodec`, `InternalCodec`, `Wire`, `BackupJson`, `Marshal` and `ClientJson`), the encoder of
-- QR codes (`QrPackage`), hashes and codings (`Crypto` with `CryptoLaws`), flags and environment
-- (`Os`), the exchange of a request for a response (`Exchange`), and the random source.
--
-- Bounds. Ids and counts are natural numbers with the limit 2^63 - 1 written out where SQLite or
-- the code stops at it. At most 500 misses are stored and 100 listed, a slug has at most 64 bytes
-- and a destination at most 2048. The loop over generated slugs has the five attempts of the code
-- as its fuel, with what follows when they are used up; the loop over the migrations has as many
-- rounds as the version is behind; the walk over JSON has two rounds for each token; digits are
-- written on a fuel of the number and one; the other loops are recursion on a list. The clock of
-- sessions is the number of seconds since 1970.
--
-- What is not modelled: the opening of databases and the edits of their names in db/db.go, the
-- texts that the client in cmd/gottem writes, and the static pages and the start-up, which are
-- input and output. The client can always encode and build its request. Of the queue, the value
-- that Close returns is left out, and each locked section is one step. Of responses, the headers
-- on caching, content and challenges are left out where a constructor does not stand for them.
pub mod Base
pub mod Validation
pub mod Handlers
pub mod Db
pub mod Backup
pub mod Config
pub mod Routes
pub mod Client
pub mod Examples
