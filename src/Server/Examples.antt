-- ===== src/Server/Examples.antt =====
-- A machine whose server is up after three attempts to connect, and the theorem at it. The state
-- counts the attempts.
use contract_abstract.Prelude.{
  ℕ, ◌+◌, Text, Bool, true, false, Option, some, List, ltb, if◌then◌else◌,
}
use contract_abstract.Server.Manager.{Reply, success, failure, Statement}

abbrev run : List Text → ℕ → Option ℕ × ℕ
run command attempts = (some 0, attempts)

abbrev path_exists : Text → ℕ → Bool
path_exists path attempts = false

abbrev connect : Text → ℕ → Reply × ℕ
connect name attempts = (if ltb attempts 3 then failure else success true, attempts + 1)

abbrev execute : Statement → ℕ → Reply × ℕ
execute statement attempts = (success true, attempts)
