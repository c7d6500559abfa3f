-- ===== src/Server/Ready.antt =====
-- When `DatabaseManager.setup_database` has set the database up.
use contract_abstract.Prelude.{ℕ, zero, suc, ◌≡◌, ◌⊎◌, Text, codes, Bool, true, false, Option, List}
use contract_abstract.Server.Manager.{
  System, Reply, success, failure, Statement, find_database, create_database, find_access,
  succeeded, start_postgres_service,
}

module _ {W : Type 0} where
  abbrev answer : Reply × W → Bool × W
  answer r = (succeeded r.0, r.1)

module _ {W : Type 0} (run : List Text → W → Option ℕ × W) (path_exists : Text → W → Bool)
    (connect : Text → W → Reply × W) (execute : Statement → W → Reply × W) (system : System)
    (database : Text) where
  abbrev pub Connects : Text → W → W → Type 0
  Connects name w last = (row : Bool) × (connect name w ≡ (success row, last))

  abbrev pub Refuses : Text → W → W → Type 0
  Refuses name w last = connect name w ≡ (failure, last)

  -- one of at most so many connections succeeds, all before it being refused
  abbrev pub Waits : ℕ → W → W → Type 0
  Waits zero w last = ⊥
  Waits (suc left) w last =
      Connects (codes "postgres") w last
      ⊎ ((v : W) × (Refuses (codes "postgres") w v × Waits left v last))

  -- The server answers, or it does not, is started and answers within ten connections.
  abbrev pub ComesUp : W → W → Type 0
  ComesUp first up =
      Connects (codes "postgres") first up
      ⊎ ((v : W) × (s : W) × (Refuses (codes "postgres") first v
            × ((start_postgres_service run path_exists connect execute system database v
                  ≡ (true, s))
                × Waits 10 s up)))

  -- The query finds the database, or it finds none and CREATE DATABASE succeeds.
  abbrev pub IsThere : W → W → Type 0
  IsThere w last =
      (execute (find_database database) w ≡ (success true, last))
      ⊎ ((v : W) × (row : Bool) × ((execute (find_database database) w ≡ (success false, v))
            × (execute (create_database database) v ≡ (success row, last))))

  -- The query for the access has a row and a connection to the database succeeds, or it has no row
  -- and nothing is tried.
  abbrev pub IsTried : W → W → Type 0
  IsTried w last =
      ((v : W) × ((execute (find_access database) w ≡ (success true, v))
          × Connects database v last))
      ⊎ (execute (find_access database) w ≡ (success false, last))
