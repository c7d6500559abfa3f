-- ===== src/Server/Manager.antt =====
-- `DatabaseManager` (slither/tools/contract_abstract/database_manager.py). The machine is a state `W`
-- that every command changes. Parameters: `run`, the return code of `subprocess.run`, none for an
-- exception; `path_exists` of os.path; `connect`, `psycopg2.connect` to the database of a name; and
-- `execute`, a statement on the connection to the database "postgres" and whether `fetchone` has a
-- row after it.
use contract_abstract.Prelude.{
  ℕ, zero, suc, Text, codes, Bool, true, false, ◌||◌, Option, none, some, List, [], ◌∷◌, ◌==◌,
  if◌then◌else◌,
}

-- `platform.system().lower()`
pub data System : Type 0 where
  darwin : System
  linux : System
  windows : System
  unknown : System

pub data Reply : Type 0 where
  success : Bool → Reply
  failure : Reply

-- the query for the name, CREATE DATABASE, and the query for the access list
pub data Statement : Type 0 where
  find_database : Text → Statement
  create_database : Text → Statement
  find_access : Text → Statement

abbrev pub is_zero_code : Option ℕ → Bool
is_zero_code none = false
is_zero_code (some code) = code == 0

abbrev pub succeeded : Reply → Bool
succeeded (success row) = true
succeeded failure = false

abbrev pub service_names : List Text
service_names =
    codes "postgresql" ∷ codes "postgresql-14" ∷ codes "postgresql-13" ∷ codes "postgresql-12" ∷ []

-- Go on only where it succeeded, or only where it failed.
abbrev pub and_also {ℓ} : {W : Type ℓ} → Bool × W → (W → Bool × W) → Bool × W
and_also (true, w) next = next w
and_also (false, w) next = (false, w)

abbrev pub or_else {ℓ} : {W : Type ℓ} → Bool × W → (W → Bool × W) → Bool × W
or_else (true, w) next = (true, w)
or_else (false, w) next = next w

module _ {ℓ} {W : Type ℓ} (run : List Text → W → Option ℕ × W) (path_exists : Text → W → Bool)
    (connect : Text → W → Reply × W) (execute : Statement → W → Reply × W) (system : System)
    (database : Text) where
  -- `result.returncode == 0`; an exception is caught and False
  abbrev pub runs : List Text → W → Bool × W
  runs command w = let r = run command w in (is_zero_code r.0, r.1)

  unfoldable pub check_postgres_installed : W → Bool × W
  check_postgres_installed w = elim system [
    | darwin ↦ runs (codes "which" ∷ codes "postgres" ∷ []) w
    | linux ↦ runs (codes "which" ∷ codes "postgres" ∷ []) w
    | windows ↦ (
      path_exists (codes "C:\\Program Files\\PostgreSQL") w
          || path_exists (codes "C:\\Program Files (x86)\\PostgreSQL") w,
      w,
    )
    | unknown ↦ (false, w)
  ]

  -- the first name whose status is 0, else the default
  unfoldable pub first_service : List Text → W → Text × W
  first_service [] w = (codes "postgresql", w)
  first_service (name ∷ names) w =
      let status = runs (codes "systemctl" ∷ codes "status" ∷ name ∷ []) w in
      let rest = first_service names status.1 in if status.0 then (name, status.1) else rest

  unfoldable pub get_postgres_service_name : W → Text × W
  unfolding first_service
  get_postgres_service_name w = elim system [
    | linux ↦ first_service service_names w
    | _ ↦ (codes "postgresql", w)
  ]

  unfoldable pub check_postgres_running : W → Bool × W
  check_postgres_running w = let r = connect (codes "postgres") w in (succeeded r.0, r.1)

  unfoldable pub start_postgres_service : W → Bool × W
  unfolding get_postgres_service_name
  start_postgres_service w = elim system [
    | darwin ↦ start_darwin w
    | linux ↦
        let service = get_postgres_service_name w in
        runs (codes "sudo" ∷ codes "systemctl" ∷ codes "start" ∷ service.0 ∷ []) service.1
    | windows ↦ runs (codes "net" ∷ codes "start" ∷ codes "postgresql" ∷ []) w
    | unknown ↦ (false, w)
  ]
    where
      -- an exception of the first command leaves the function
      after_brew : Option ℕ × W → Bool × W
      after_brew (none, w) = (false, w)
      after_brew (some code, w) =
          or_else (code == 0, w)
            (runs
              (codes "pg_ctl" ∷ codes "-D" ∷ codes "/usr/local/var/postgres" ∷ codes "start" ∷ []))

      start_darwin : W → Bool × W
      start_darwin w =
          after_brew
            (run (codes "brew" ∷ codes "services" ∷ codes "start" ∷ codes "postgresql" ∷ []) w)

  unfoldable pub stop_postgres_service : W → Bool × W
  unfolding get_postgres_service_name
  stop_postgres_service w = elim system [
    | darwin ↦ runs (codes "brew" ∷ codes "services" ∷ codes "stop" ∷ codes "postgresql" ∷ []) w
    | linux ↦
        let service = get_postgres_service_name w in
        runs (codes "sudo" ∷ codes "systemctl" ∷ codes "stop" ∷ service.0 ∷ []) service.1
    | windows ↦ runs (codes "net" ∷ codes "stop" ∷ codes "postgresql" ∷ []) w
    | unknown ↦ (false, w)
  ]

  -- `if not result: CREATE DATABASE`
  abbrev pub on_found : Reply × W → Bool × W
  on_found (success true, w) = (true, w)
  on_found (success false, w) = let r = execute (create_database database) w in (succeeded r.0, r.1)
  on_found (failure, w) = (false, w)

  -- the test of the access, by a connection
  abbrev pub on_access : Reply × W → Bool × W
  on_access (success true, w) = let r = connect database w in (succeeded r.0, r.1)
  on_access (success false, w) = (true, w)
  on_access (failure, w) = (false, w)

  unfoldable pub create_database_if_not_exists : W → Bool × W
  unfolding check_postgres_running
  create_database_if_not_exists w = and_also (check_postgres_running w) (λ w₁.
      and_also (on_found (execute (find_database database) w₁))
        (λ w₂. on_access (execute (find_access database) w₂)))

  -- `for i in range(10)`: `left` rounds are left
  unfoldable pub wait_running : ℕ → W → Bool × W
  unfolding check_postgres_running
  wait_running zero w = (false, w)
  wait_running (suc left) w = or_else (check_postgres_running w) (λ w₁. wait_running left w₁)

  unfoldable pub setup_database : W → Bool × W
  unfolding check_postgres_installed check_postgres_running start_postgres_service wait_running
  setup_database w = and_also (check_postgres_installed w) (λ w₁.
      and_also
        (or_else (check_postgres_running w₁)
          (λ w₂. and_also (start_postgres_service w₂) (wait_running 10)))
        create_database_if_not_exists)
