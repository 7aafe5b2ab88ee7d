-- ===== src/Unvacation.antt =====
-- simunvacation.c: the program that cleans up after the users whose vacation is over. The database
-- is opened with a C literal for a name, where the databases copy a string of yasl.c: the model takes
-- its text.
pub mod Cleanup
use simvacation.Common.{ℕ, Bool, true, false, Option, none, some, List, [], ◌∷◌, Bytes, codes}
use simvacation.Config.{Config}
use simvacation.Vdb.{VacResult, ok, tempfail, permfail, VdbBackend, vdb_backend}
use simvacation.Vlu.{VluBackend, vlu_backend}
use simvacation.Main.{Host}

-- What `getopt` returns, call by call: `unknown_flag` is `?`.
pub data Flag : Type 0 where
  config_flag : Bytes → Flag
  debug_flag unknown_flag : Flag

-- `usage` ends the program: `none`.
unfoldable pub flags : List Flag → Option Bytes → Option (Option Bytes)
flags [] config_file = some config_file
flags (config_flag file ∷ rest) config_file = flags rest (some file)
flags (debug_flag ∷ rest) config_file = flags rest config_file
flags (unknown_flag ∷ rest) config_file = none

-- How a run ends: by a `NULL` that is read, or by `exit`.
pub data End (W : Type 0) : Type 0 where
  broken : W → End W
  ended : ℕ → W → End W

module _ {W V L : Type 0} (vdb : VdbBackend W V) (vlu : VluBackend W L) (vdbh : V) (vluh : L) where
  -- The `switch` on the result of the search.
  clean_found : Bytes → VacResult × W → W
  clean_found uniqname (permfail, w) = vdb.clean vdbh uniqname w
  clean_found uniqname (_, w) = w

  pub clean_names : List Bytes → W → W
  unfolding clean_found
  clean_names [] w = w
  clean_names (uniqname ∷ rest) w =
      clean_names rest (clean_found uniqname (vlu.search vluh uniqname w))

  -- From the loop to `exit`.
  pub sweep : List Bytes → W → End W
  unfolding clean_names
  sweep uniqnames w =
      ended 0
        (vlu.close (some vluh) (vdb.close (some vdbh) (vdb.gc vdbh (clean_names uniqnames w))))

module _ {W V L : Type 0} (host : Host W V L) where
  lookup_opened : VdbBackend W V → V → List Bytes → VluBackend W L → Option L × W → End W
  unfolding sweep
  lookup_opened vdb vdbh uniqnames vlu (none, w) = ended 1 (vdb.close (some vdbh) w)
  lookup_opened vdb vdbh uniqnames vlu (some vluh, w) = sweep vdb vlu vdbh vluh uniqnames w

  lookup_chosen : VdbBackend W V → V → List Bytes → Option (VluBackend W L) → W → End W
  unfolding lookup_opened
  lookup_chosen vdb vdbh uniqnames none w = ended 1 (vdb.close (some vdbh) w)
  lookup_chosen vdb vdbh uniqnames (some vlu) w = lookup_opened vdb vdbh uniqnames vlu (vlu.init w)

  lookup_named : Config → VdbBackend W V → V → List Bytes → Option Bytes → W → End W
  unfolding lookup_chosen
  lookup_named config vdb vdbh uniqnames none w = broken w
  lookup_named config vdb vdbh uniqnames (some provider) w =
      lookup_chosen vdb vdbh uniqnames (vlu_backend host.allocated host.ldap config provider) w

  database_opened : Config → VdbBackend W V → Option V × W → End W
  unfolding lookup_named
  database_opened config vdb (none, w) = ended 1 w
  database_opened config vdb (some vdbh, w) =
      lookup_named config vdb vdbh (vdb.get_names vdbh w) config.core_vlu w

  database_chosen : Config → Option (VdbBackend W V) → W → End W
  unfolding database_opened
  database_chosen config none w = ended 1 w
  database_chosen config (some vdb) w =
      database_opened config vdb (vdb.init (codes "simunvacation") w)

  database_named : Config → Option Bytes → W → End W
  unfolding database_chosen
  database_named config none w = broken w
  database_named config (some provider) w =
      database_chosen config (vdb_backend host.blank host.urcl host.lmdb provider) w

  config_read : Option Config → W → End W
  unfolding database_named
  config_read none w = ended 1 w
  config_read (some config) w = database_named config config.core_vdb w

  flags_read : Option (Option Bytes) → W → End W
  unfolding config_read
  flags_read none w = ended 1 w
  flags_read (some config_file) w = config_read (host.read_vacation_config config_file w) w

  unfoldable pub simunvacation_main : List Flag → W → End W
  unfolding flags_read flags
  simunvacation_main opts w = flags_read (flags opts none) w
