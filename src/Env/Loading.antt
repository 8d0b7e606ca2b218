-- ===== src/Env/Loading.antt =====
-- Which value a key has after a file was loaded without overwriting.
use cppbackend_api.Base.{
  ℕ, ◌≡◌, refl, sym, ap, ◌∙◌, Bool, true, false, inl, inr, Option, none, some, List, [], ◌∷◌, arith,
  if◌then◌else◌, Bool-cases, Option-cases, is_nil, same_bytes, same_bytes_iff,
}
use cppbackend_api.Env.{
  Text, Environment, lookup, get_os_env, set, parse_line, assign, assign_new, load_line, load_lines,
  load, get, count_if,
}

-- The value that the first line which assigns the key gives it.
abbrev pub first_assigned : Text → List Text → Option Text
first_assigned key [] = none
first_assigned key (line ∷ lines) = elim (parse_line line) [
  | none ↦ first_assigned key lines
  | some (k, v) ↦ if same_bytes k key then some v else first_assigned key lines
]

-- The value of the loader's map, else a non-empty one of the process, else none.
abbrev pub defined : Text → Environment → Option Text
defined key env = elim (lookup key env.env_map) [
  | some v ↦ some v
  | none ↦ if is_nil (get_os_env key env) then none else some (get_os_env key env)
]

abbrev pub or_else : Option Text → Option Text → Option Text
or_else none o = o
or_else (some v) o = some v

abbrev pub or_default : Option Text → Text → Text
or_default none d = d
or_default (some v) d = v

get-defined :
    (key default : Text) (env : Environment)
    → get key default env ≡ or_default (defined key env) default
unfolding get
get-defined key default env = ground arith

same_bytes_refl : (s : Text) → same_bytes s s ≡ true
same_bytes_refl s = (same_bytes_iff s s).1 refl

assign_new-same :
    (key v : Text) (env : Environment)
    → defined key (assign_new key v env).0 ≡ or_else (defined key env) (some v)
unfolding set
assign_new-same key v env = ground (arith, same_bytes_refl key)

assign_new-other :
    (key k v : Text) (env : Environment)
    → same_bytes k key ≡ false
    → defined key (assign_new k v env).0 ≡ defined key env
unfolding set
assign_new-other key k v env h = ground arith

or_else-none : (o : Option Text) → or_else o none ≡ o
or_else-none none = refl
or_else-none (some v) = refl

or_else-same :
    (o : Option Text) (v : Text) (p : Option Text)
    → or_else (or_else o (some v)) p ≡ or_else o (some v)
or_else-same none v p = refl
or_else-same (some w) v p = refl

-- One line, as it is parsed.
line_skipped :
    (line : Text) (env : Environment)
    → parse_line line ≡ none
    → load_line false line env ≡ (env, false)
line_skipped line env e = rw (e, load_line)

line_assigns :
    (line k v : Text) (env : Environment)
    → parse_line line ≡ some (k, v)
    → load_line false line env ≡ assign_new k v env
unfolding assign
line_assigns line k v env e = rw (e, load_line)

first_skipped :
    (key line : Text) (lines : List Text)
    → parse_line line ≡ none
    → first_assigned key (line ∷ lines) ≡ first_assigned key lines
first_skipped key line lines e = rw (e, first_assigned)

first_taken :
    (key line k v : Text) (lines : List Text)
    → parse_line line ≡ some (k, v)
    → first_assigned key (line ∷ lines)
      ≡ (if same_bytes k key then some v else first_assigned key lines)
first_taken key line k v lines e = rw (e, first_assigned)

-- A line and the rest, by what the line does to the key.
after_line :
    (key line : Text) (lines : List Text) (env : Environment)
    → or_else (defined key (load_line false line env).0) (first_assigned key lines)
      ≡ or_else (defined key env) (first_assigned key (line ∷ lines))
after_line key line lines env = elim (Option-cases (parse_line line)) [
  | inl e ↦ rw (line_skipped line env e) (rw (first_skipped key line lines e))
  | inr ((k, v), e) ↦
      let rest = first_assigned key lines in
      rw (line_assigns line k v env e) (
        rw (first_taken key line k v lines e) (elim (Bool-cases (same_bytes k key)) [
          | inl same ↦
              let one : k ≡ key = (same_bytes_iff k key).0 same in
              rw same (
                rw one (
                  ap (λ (o : Option Text). or_else o rest) (assign_new-same key v env)
                  ∙ or_else-same (defined key env) v rest))
          | inr other ↦
              rw other
                (ap (λ (o : Option Text). or_else o rest) (assign_new-other key k v env other))
        ]))
]

load_lines-defined :
    (key : Text) (lines : List Text) (env : Environment) (n : ℕ)
    → defined key (load_lines false lines (env, n)).0
      ≡ or_else (defined key env) (first_assigned key lines)
unfolding load_lines
load_lines-defined key [] env n = sym (or_else-none (defined key env))
load_lines-defined key (line ∷ lines) env n =
    let after : Environment × Bool = load_line false line env in
    load_lines-defined key lines after.0 (count_if after.1 n) ∙ after_line key line lines env

-- After a file was read without overwriting, a key has the value that it had before: in the loader's
-- map, or a non-empty one in the process; else that of the first line which assigns it; else the
-- default.
pub get-load :
    (key default : Text) (lines : List Text) (env : Environment)
    → get key default (load false (some lines) env).1
      ≡ or_default (or_else (defined key env) (first_assigned key lines)) default
unfolding load
get-load key default lines env =
    get-defined key default (load_lines false lines (env, 0)).0
    ∙ ap (λ (o : Option Text). or_default o default) (load_lines-defined key lines env 0)

-- A value that was set is read back, whatever the environment was, also an empty one.
pub get-set :
    (key value default : Text) (env : Environment) → get key default (set key value env) ≡ value
unfolding get set
get-set key value default env = ground (arith, same_bytes_refl key)
