-- ===== src/Env.antt =====
-- Infrastructure/src/Config/EnvLoader.cpp over bytes: the variables of a .env file, of the process
-- and of the loader's own map. Finding and opening the file is the file system's: `load` is given
-- its lines, or nothing.
pub mod Trim
pub mod Loading
pub mod Config
use cppbackend_api.Base.{
  ℕ, zero, suc, ◌+◌, ◌-◌, Bool, true, false, not, ◌&&◌, ◌||◌, Option, none, some, List, [], ◌∷◌,
  ◌++◌, String, if◌then◌else◌, leb, ltb, ◌==◌, length, any, all, bytes, find, find_at, drop, take,
  substr, is_some, is_nil, same_bytes, ℤ, pos, negsuc,
}
use cppbackend_api.Validation.{is_blank}
use cppbackend_api.Crypto.Passwords.{stoi}

abbrev pub Text : Type 0
Text = List ℕ

-- find_first_not_of(" \t\r\n"), the list standing from position `at` on.
abbrev pub find_first_not_blank : ℕ → Text → Option ℕ
find_first_not_blank at [] = none
find_first_not_blank at (b ∷ bs) = if is_blank b then find_first_not_blank (suc at) bs else some at

-- find_last_not_of(" \t\r\n").
abbrev pub find_last_not_blank : ℕ → Text → Option ℕ
find_last_not_blank at [] = none
find_last_not_blank at (b ∷ bs) = elim (find_last_not_blank (suc at) bs) [
  | some last ↦ some last
  | none ↦ if is_blank b then none else some at
]

abbrev pub trim_between : Text → Option ℕ → Option ℕ → Text
trim_between str (some first) (some last) = substr first (last - first + 1) str
trim_between str first last = []

unfoldable pub trim : Text → Text
trim str = trim_between str (find_first_not_blank 0 str) (find_last_not_blank 0 str)

-- front() and back() of a text that is not empty.
abbrev pub front_is : ℕ → Text → Bool
front_is c [] = false
front_is c (b ∷ bs) = b == c

abbrev pub back_is : ℕ → Text → Bool
back_is c [] = false
back_is c (b ∷ []) = b == c
back_is c (b ∷ d ∷ bs) = back_is c (d ∷ bs)

abbrev pub quoted_by : ℕ → Text → Bool
quoted_by c val = front_is c val && back_is c val

unfoldable pub parse_value : Text → Text
parse_value raw =
    let val = trim raw in
    if leb 2 (length val) && (quoted_by b'"' val || quoted_by 39 val)
    then substr 1 (length val - 2) val
    else elim (find b'#' 0 val) [ none ↦ val | some hash ↦ trim (take hash val) ]

-- A map and the process environment, both with the latest entry first.
abbrev pub Entries : Type 0
Entries = List (Text × Text)

abbrev pub lookup : Text → Entries → Option Text
lookup key [] = none
lookup key ((k, v) ∷ rest) = if same_bytes k key then some v else lookup key rest

pub record Environment : Type 0 where
  pub env_map : Entries
  pub os : Entries

abbrev pub or_nil : Option Text → Text
or_nil none = []
or_nil (some v) = v

-- getOsEnv: a variable that is not set reads as "".
abbrev pub get_os_env : Text → Environment → Text
get_os_env key env = or_nil (lookup key env.os)

-- setenv refuses an empty name and one with '='.
abbrev pub set_os_env : Text → Text → Entries → Entries
set_os_env key value os = if is_nil key || any (λ b. b == b'=') key then os else (key, value) ∷ os

unfoldable pub set : Text → Text → Environment → Environment
set key value env = record {
  env_map = (key, value) ∷ env.env_map;
  os = set_os_env key value env.os;
}

-- One line of the file as a key and a value; nothing for a blank line, a comment and a line without
-- a key.
abbrev pub with_key : Text → Text → Option (Text × Text)
with_key key value = if is_nil key then none else some (key, value)

unfoldable pub parse_line : Text → Option (Text × Text)
parse_line line =
    let trimmed = trim line in
    if is_nil trimmed || front_is b'#' trimmed then none else elim (find b'=' 0 trimmed) [
      | none ↦ none
      | some eq ↦
          if eq == 0
          then none
          else with_key (trim (take eq trimmed)) (parse_value (drop (eq + 1) trimmed))
    ]

-- A key and a value meet the environment; the Boolean counts the line as loaded.
abbrev pub assign_new : Text → Text → Environment → Environment × Bool
assign_new key value env = elim (lookup key env.env_map) [
  | some v ↦ (env, false)
  | none ↦
      let os_value = get_os_env key env in
      if is_nil os_value
      then (set key value env, true)
      else (record env { env_map = (key, os_value) ∷ env.env_map }, false)
]

unfoldable pub assign : Bool → Text → Text → Environment → Environment × Bool
assign overwrite key value env =
    if overwrite then (set key value env, true) else assign_new key value env

abbrev pub load_line : Bool → Text → Environment → Environment × Bool
load_line overwrite line env = elim (parse_line line) [
  | none ↦ (env, false)
  | some (key, value) ↦ assign overwrite key value env
]

abbrev pub count_if : Bool → ℕ → ℕ
count_if b n = if b then suc n else n

-- The loop of `load`, with its loadedCount.
unfoldable pub load_lines : Bool → List Text → Environment × ℕ → Environment × ℕ
load_lines overwrite [] state = state
load_lines overwrite (line ∷ lines) (env, loaded) =
    let (next, counted) = load_line overwrite line env in
    load_lines overwrite lines (next, count_if counted loaded)

unfoldable pub load : Bool → Option (List Text) → Environment → Bool × Environment
load overwrite none env = (false, env)
load overwrite (some lines) env = (true, (load_lines overwrite lines (env, 0)).0)

unfoldable pub get : Text → Text → Environment → Text
get key default env = elim (lookup key env.env_map) [
  | some v ↦ v
  | none ↦ let os_value = get_os_env key env in if is_nil os_value then default else os_value
]

abbrev pub int_or : Option ℤ → ℤ → ℤ
int_or none default = default
int_or (some n) default = n

unfoldable pub get_int : Text → ℤ → Environment → ℤ
get_int key default env =
    let val = get key [] env in if is_nil val then default else int_or (stoi val) default

abbrev pub to_lower : ℕ → ℕ
to_lower c = if leb b'A' c && leb c b'Z' then c + 32 else c

abbrev pub lower : Text → Text
lower [] = []
lower (c ∷ cs) = to_lower c ∷ lower cs

unfoldable pub get_bool : Text → Bool → Environment → Bool
get_bool key default env =
    let val = get key [] env in
    if is_nil val
    then default
    else (let low = lower val in
        same_bytes low (bytes "true")
        || same_bytes low (bytes "1")
        || same_bytes low (bytes "yes")
        || same_bytes low (bytes "on"))

abbrev pub clear : Environment → Environment
clear env = record env { env_map = [] }
