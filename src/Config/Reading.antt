-- ===== src/Config/Reading.antt =====
-- vutil.c, read_vacation_config: the configuration of the build, and the file that goes over it.
pub mod Sources
use simvacation.Common.{
  ℕ, ◌≡◌, ◌↔◌, ◌⊎◌, inl, inr, refl, ap, Bool, true, false, not, Option, none, some, Bytes, codes,
  if◌then◌else◌, Bool-cases,
}
use simvacation.Vdb.{VacResult, ok, tempfail}
use simvacation.Config.{Config}
use simvacation.Config.Ucl.{Ucl}

module _ (u : Ucl) where
  -- `vac_config` is `NULL` before the first parser's object, and is then what that returned.
  merge_file : u.Object → Option u.Object → VacResult × Option u.Object
  merge_file base none = (tempfail, some base)
  merge_file base (some file) = (ok, some (u.ucl_object_merge base file))

  abbrev pub default_file : Bytes
  default_file = codes "/etc/mail/simvacation.conf"

  read_file : u.Object → Option Bytes → u.Files → VacResult × Option u.Object
  unfolding merge_file
  read_file base (some config_file) files =
      merge_file base (u.ucl_parser_add_file files config_file)
  read_file base none files =
      if not (u.access files default_file)
      then (ok, some base)
      else merge_file base (u.ucl_parser_add_file files default_file)

  over_base : Option u.Object → Option Bytes → u.Files → VacResult × Option u.Object
  unfolding read_file
  over_base none config_file files = (tempfail, none)
  over_base (some base) config_file files = read_file base config_file files

  -- The result, and `vac_config`.
  unfoldable pub read_vacation_config : Option Bytes → u.Files → VacResult × Option u.Object
  unfolding over_base
  read_vacation_config config_file files =
      over_base (u.ucl_parser_add_string u.simvacation_config_base) config_file files

  -- What the program asks the object for.
  unfoldable pub settings_of : u.Object → Config
  settings_of vac_config = record {
    core_vdb = u.tostring vac_config (codes "core.vdb");
    core_vlu = u.tostring vac_config (codes "core.vlu");
    core_domain = u.tostring vac_config (codes "core.domain");
    core_sendmail = u.tostring vac_config (codes "core.sendmail");
    core_default_message = u.tostring vac_config (codes "core.default_message");
    core_subject_prefix = u.tostring vac_config (codes "core.subject_prefix");
    core_interval = u.totime vac_config (codes "core.interval");
  }

  -- As `main` takes it.
  configured_by : VacResult × Option u.Object → Option Config
  unfolding settings_of
  configured_by (ok, some vac_config) = some (settings_of vac_config)
  configured_by _ = none

  unfoldable pub read_settings : Option Bytes → u.Files → Option Config
  unfolding configured_by
  read_settings config_file files = configured_by (read_vacation_config config_file files)

  -- The file that is read: the one that is named, or the default one where it is there.
  pub data Reads (files : u.Files) : Option Bytes → Option Bytes → Type 0 where
    named : {f : Bytes} → Reads files (some f) (some f)
    present : u.access files default_file ≡ true → Reads files none (some default_file)
    absent : u.access files default_file ≡ false → Reads files none none

  -- The object that the program goes by.
  pub data Configured (files : u.Files) (vac_config : u.Object) : Option Bytes → Type 0 where
    base_alone :
        u.ucl_parser_add_string u.simvacation_config_base ≡ some vac_config
        → Configured files vac_config none
    file_over :
        {f : Bytes} {base file : u.Object}
        → u.ucl_parser_add_string u.simvacation_config_base ≡ some base
        → u.ucl_parser_add_file files f ≡ some file
        → vac_config ≡ u.ucl_object_merge base file
        → Configured files vac_config (some f)
