-- ===== src/Config/Ucl.antt =====
-- The configuration library (libucl), the file system and the text of simvacation.conf that the build
-- embeds (`SIMVACATION_CONFIG_BASE`), as `read_vacation_config` uses them: a parameter of the model.
use simvacation.Common.{ℕ, Bool, Option, Bytes}

pub record Ucl : Type 1 where
  pub Object : Type 0
  pub Files : Type 0
  pub simvacation_config_base : Bytes
  -- A parser on a string, and one on a file with the variables that are named for it: `none` where
  -- the parsing fails, and else what `ucl_parser_get_object` returns.
  pub ucl_parser_add_string : Bytes → Option Object
  pub ucl_parser_add_file : Files → Bytes → Option Object
  -- `access(file, F_OK) == 0`
  pub access : Files → Bytes → Bool
  pub ucl_object_merge : Object → Object → Object
  -- `ucl_object_tostring` and, as a `time_t`, `ucl_object_todouble`, of `ucl_object_lookup_path`.
  pub tostring : Object → Bytes → Option Bytes
  pub totime : Object → Bytes → ℕ
