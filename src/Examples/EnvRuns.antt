-- ===== src/Examples/EnvRuns.antt =====
-- A small .env file.
use cppbackend_api.Base.{◌≡◌, refl, false, some, List, [], ◌∷◌, bytes}
use cppbackend_api.Env.{
  Environment, Text, trim, parse_value, parse_line, set, assign, load_lines, load, get, get_int,
}
use cppbackend_api.Env.Loading.{first_assigned, defined, or_else, or_default, get-load}
use cppbackend_api.Env.Config.{from_env}

abbrev lines : List Text
lines =
    bytes "# settings"
    ∷ bytes "  DB_HOST = 'db #1'  "
    ∷ bytes "DB_PORT=6543 # local"
    ∷ bytes "SERVER_PORT=9090"
    ∷ bytes "SERVER_PORT=7070"
    ∷ bytes "nonsense"
    ∷ []

abbrev env : Environment
env = record { env_map = []; os = (bytes "DB_PORT", bytes "5432") ∷ [] }

abbrev loaded : Environment
loaded = (load false (some lines) env).1

-- A quoted value keeps its '#', a value of the process wins, and so does the first line.
host : get (bytes "DB_HOST") [] loaded ≡ bytes "db #1"
unfolding load load_lines parse_line parse_value trim assign set get
host = refl

port : get (bytes "DB_PORT") [] loaded ≡ bytes "5432"
unfolding load load_lines parse_line parse_value trim assign set get
port = refl

server_port : (from_env loaded).server_port ≡ 9090
unfolding load load_lines parse_line parse_value trim assign set get from_env get_int
server_port = refl

get-load_example :
    get (bytes "DB_HOST") [] loaded
    ≡ or_default
        (or_else (defined (bytes "DB_HOST") env) (first_assigned (bytes "DB_HOST") lines))
        []
get-load_example = get-load (bytes "DB_HOST") [] lines env
