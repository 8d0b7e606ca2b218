-- ===== src/Pool.antt =====
-- Infrastructure/src/Persistence/PostgresDb.cpp: the pool of database connections, and the threads
-- that wait on its condition variable. libpqxx opens connections and says whether one is open:
-- these answers come with each call.
pub mod Steps
pub mod Wakeups
use cppbackend_api.Base.{
  ℕ, zero, suc, ◌+◌, ◌-◌, Bool, true, false, ◌||◌, Option, none, some, List, [], ◌∷◌, String,
  append, if◌then◌else◌, is_empty, ltb, length, ◌==◌, is_nil,
}

-- The connections are named by numbers. `pool` has the last returned one first; `lent` counts those
-- that callers hold. `awake` threads run or are about to run getConnection, and `asleep` ones are
-- blocked in its wait.
pub record Pool : Type 0 where
  pub max_pool_size : ℕ
  pub created_count : ℕ
  pub pool : List ℕ
  pub lent : ℕ
  pub awake : ℕ
  pub asleep : ℕ

-- The constructor: no connection is made yet.
abbrev pub new_pool : ℕ → Pool
new_pool max = record {
  max_pool_size = max;
  created_count = 0;
  pool = [];
  lent = 0;
  awake = 0;
  asleep = 0;
}

-- What the wait waits for.
abbrev pub can_proceed : Pool → Bool
can_proceed p = if is_nil p.pool then ltb p.created_count p.max_pool_size else true

-- notify_one: one sleeping thread wakes.
abbrev pub notify_one : Pool → Pool
notify_one p = if p.asleep == 0 then p else record p { asleep = p.asleep - 1; awake = p.awake + 1 }

-- What one call of getConnection meets: whether the pooled connection is still open, and whether a
-- new one can be made; a new one gets the next number. A connection just made is asked whether it is
-- open, and is made once more where it is not.
pub record Attempt : Type 0 where
  pub still_open : Bool
  pub connects : Bool
  pub opens : Bool
  pub reconnects : Bool
  pub fresh : ℕ

-- The thread leaves with the connection, or with an exception.
abbrev pub leave_with : ℕ → Pool → Option ℕ × Pool
leave_with c p = (some c, record p { lent = p.lent + 1; awake = p.awake - 1 })

abbrev pub leave_failed : Pool → Option ℕ × Pool
leave_failed p = (none, record p { awake = p.awake - 1 })

-- A new connection where the pool is empty. Its failure does not notify; that of the second attempt
-- gives the place back and notifies.
abbrev pub create_connection : Attempt → Pool → Option ℕ × Pool
create_connection a p =
    if a.connects
    then (if a.opens || a.reconnects
        then leave_with a.fresh (record p { created_count = p.created_count + 1 })
        else leave_failed (notify_one (record p { created_count = p.created_count + 1 - 1 })))
    else leave_failed p

-- The last returned connection, replaced where it is closed. The failure gives its place back and
-- notifies.
abbrev pub reuse_connection : Attempt → ℕ → List ℕ → Pool → Option ℕ × Pool
reuse_connection a c rest p =
    let taken = record p { pool = rest } in
    if a.still_open
    then leave_with c taken
    else if a.connects
    then leave_with a.fresh taken
    else leave_failed (notify_one (record taken { created_count = p.created_count - 1 }))

-- getConnection after its wait.
abbrev pub take_connection : Attempt → List ℕ → Pool → Option ℕ × Pool
take_connection a [] p = create_connection a p
take_connection a (c ∷ rest) p = reuse_connection a c rest p

unfoldable pub get_connection : Attempt → Pool → Option ℕ × Pool
get_connection a p = take_connection a p.pool p

-- returnConnection, the deleter of a lent connection.
unfoldable pub return_connection : Bool → ℕ → Pool → Pool
return_connection is_open c p =
    let back = record p { lent = p.lent - 1 } in
    notify_one (
      if is_open
      then record back { pool = c ∷ p.pool }
      else record back { created_count = p.created_count - 1 })

-- getDefaultConnectionString, from the environment; a variable that is not set reads as "".
abbrev pub or_default : String → String → String
or_default s default = if is_empty s then default else s

unfoldable pub get_default_connection_string : (String → String) → String
get_default_connection_string env =
    if is_empty (env "DATABASE_URL")
    then (if is_empty (env "POSTGRES_CONN_STR")
        then append "host=" (
            append (or_default (env "DB_HOST") "localhost") (
              append " port=" (
                append (or_default (env "DB_PORT") "5432") (
                  append " dbname=" (
                    append (or_default (env "DB_NAME") "crowapi_db") (
                      append " user=" (
                        append (or_default (env "DB_USER") "postgres") (
                          append " password=" (
                            append (or_default (env "DB_PASSWORD") "postgres") (
                              append " connect_timeout="
                                (or_default (env "DB_CONNECT_TIMEOUT") "5")))))))))))
        else env "POSTGRES_CONN_STR")
    else env "DATABASE_URL"
