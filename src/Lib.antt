-- ===== src/Lib.antt =====
-- The back end of a C++ web service: its accounts, sessions and tokens, the permissions on them,
-- the validation of its requests, and the tables behind them.
--
-- A request passes `extractAuthenticatedUser`, a use case and the repositories. The use cases hold
-- no state: it is in PostgreSQL, or for the todos in memory. A handler is therefore a function from
-- the state to a result and the state after it.
--
--   Base        lists, options, texts (a std::string is a text with one character for each byte),
--               Boolean tests on numbers; Bytes (find, substr and comparison over bytes), Signed
--               (signed integers), Paging (LIMIT and OFFSET)
--   Domain      Domain/include/Domain and Domain/src: results and errors, permissions
--               (Common/Permissions.h with Application/src/Security/AuthorizationService.cpp),
--               entities
--   Validation  Application/src/Validation: AuthInputValidator.cpp (Credentials) and
--               InputValidator.cpp (TodoFields), with Todo::validate
--   Db          Infrastructure/src/Persistence: the tables as lists of rows, and the operations of
--               PostgresUserRepository.cpp (Users), PostgresSessionRepository.cpp (Sessions),
--               PostgresCacheRepository.cpp (Cache), PostgresAuditLogRepository.cpp (Audit)
--   Auth        Application/src/UseCases/AuthUseCases.cpp: registerUser and setPassword (Register),
--               login (Login), refresh (Refresh), logout and logoutAll (Logout), loginWithGoogle
--               and getGoogleAuthUrl (Google)
--   SessionUseCases  Application/src/UseCases/SessionUseCases.cpp
--   Access      HttpResponseHelper::extractAuthenticatedUser of
--               Presentation/src/Common/HttpResponseHelper.cpp
--   Todos       Infrastructure/src/Persistence/InMemoryTodoRepository.cpp, the use cases of
--               Application/src/UseCases/TodoUseCases.cpp over ITodoRepository (UseCases), and
--               Infrastructure/src/Persistence/PostgresTodoRepository.cpp (Postgres)
--   Caching     Application/src/UseCases/CacheUseCases.cpp, over the table of Db.Cache
--   Documents   Infrastructure/src/Persistence/PostgresDocumentRepository.cpp, and
--               Application/src/UseCases/DocumentUseCases.cpp (UseCases)
--   Queue       Infrastructure/src/Persistence/PostgresMessageQueueRepository.cpp, and
--               Application/src/UseCases/QueueUseCases.cpp (UseCases)
--   Keys        Infrastructure/src/Security/RsaKeyManager.cpp
--   Crypto      Infrastructure/src/Security/OpenSslCrypto.cpp over bytes: hexadecimal and base64url
--               codes, identifiers, and the stored form of a password (Passwords)
--   Jwt         Infrastructure/src/Security/JwtService.cpp: the parts of a token, its header and its
--               signature; claims, validateAccessToken and createAccessToken (Claims)
--   GoogleClient  Infrastructure/src/Security/GoogleAuthService.cpp over bytes: claims, id tokens,
--               the exchange of codes (Exchange)
--   Env         Infrastructure/src/Config/EnvLoader.cpp: lines of a .env file, precedence, getters;
--               AppConfig (Config)
--   Pool        Infrastructure/src/Persistence/PostgresDb.cpp: the pool of connections, and the
--               threads around it as a step relation (Steps)
--   Examples    runs on concrete tables
--
-- A function of the source keeps its name (`registerUser` is `register_user`); a long handler is
-- split at its early returns into stages, each with the lines it stands for. The methods of the
-- repositories keep theirs with the table's name where two tables share one (`create` of the users
-- is `create_user`).
--
-- The statements are translated with their WHERE, SET and ON CONFLICT parts; a SELECT takes its
-- first row in table order. Each call of a repository has an `Outcome`: it commits, or it throws at
-- its first statement, or it throws after its rows came back and is undone. The outcomes of a
-- request are a function of the call site, so that every combination is covered; what makes a
-- statement throw (no connection, a malformed uuid, a constraint that is not modelled) is not
-- distinguished. The unique indexes on LOWER(users.email), for ASCII letters, on users.google_id
-- and on sessions.jti are. Ids of type uuid are texts in the form that the database writes: another
-- spelling of the same uuid is another text here. Where ORDER BY leaves the order of rows open, the
-- order is a parameter (`Ties`).
--
-- An instant is a number of seconds; one request has one instant. The use cases reach hashing,
-- tokens, random draws and Google through interfaces, so in `Auth` these are parameters (`Services`,
-- `Call`). `Crypto`, `Jwt` and `GoogleClient` model the implementations over bytes; what OpenSSL, the
-- JSON reader and Google compute is a parameter there, and an exception is the result `none`.
-- Concurrency is the order of the calls: a theorem about two requests runs the stages of one between
-- those of the other.
--
-- The ids of the in-memory todos are unsigned numbers of 64 bits and wrap around; a run of fewer than
-- 2^63 operations does not reach that. The ids of the queue come from a sequence of the database.
--
-- There is no loop that needs fuel: each recursion is on a list or a text. The decimal text of a
-- number is built in as many rounds as the number itself, more than it has digits.
--
-- Not modelled: the HTTP and JSON layers, the router, the controllers and the start-up (glue around
-- libraries); the HTTPS calls of the Google client; the listing of the audit log; the search for the
-- .env file; the revocation listener.
pub mod Base
pub mod Domain
pub mod Db
pub mod Validation
pub mod Auth
pub mod SessionUseCases
pub mod Access
pub mod Todos
pub mod Queue
pub mod Keys
pub mod Crypto
pub mod Jwt
pub mod Pool
pub mod Env
pub mod Caching
pub mod Documents
pub mod Examples
pub mod GoogleClient
