-- ===== src/Tests/Settings.antt =====
-- The configuration, and the runs that it decides, at inputs.
use simvacation.Common.{
  ◌≡◌, ◌↔◌, refl, false, Option, none, some, List, [], ◌∷◌, Bytes, codes, if◌then◌else◌, same,
}
use simvacation.Config.Ucl.{Ucl}
use simvacation.Config.Reading.{read_vacation_config, read_settings, settings_of, Reads, Configured}
use simvacation.Config.Reading.Sources.{read_vacation_config-Sources}
use simvacation.Vdb.{ok}
use simvacation.Vdb.Mdb.{Datum}
use simvacation.Main.{config_opt, from_opt, no_options, Call, Host, exited, getopts, main}
use simvacation.Main.Interval.{World}
use simvacation.Main.Settings.{GoesBy, main-GoesBy}
use simvacation.Tests.Model.{model}
use simvacation.Tests.Main.{settings, host, call, mail, at_time, stored, first_run}
use simvacation.Tests.Store.{mdb}

-- An object is the list of its values; a file that ends in `.bad` cannot be parsed.
abbrev Values : Type 0
Values = List (Bytes × Bytes)

abbrev value_at : Values → Bytes → Option Bytes
value_at [] path = none
value_at (v ∷ c) path = let rest = value_at c path in if same v.0 path then some v.1 else rest

abbrev either_value : Option Bytes → Option Bytes → Option Bytes
either_value none o = o
either_value (some v) o = some v

abbrev base : Values
base = (codes "core.vdb", codes "redis") ∷ (codes "core.vlu", codes "ldap") ∷ []

abbrev parsed : Bytes → Option (Bytes → Option Bytes)
parsed f =
    if same f (codes "x.conf")
    then some (value_at ((codes "core.vdb", codes "lmdb") ∷ []))
    else none

abbrev ucl : Ucl
ucl = record {
  Object = Bytes → Option Bytes;
  Files = Bytes → Option (Bytes → Option Bytes);
  simvacation_config_base = codes "core";
  ucl_parser_add_string = λ s. some (value_at base);
  ucl_parser_add_file = λ files f. files f;
  access = λ files f. false;
  ucl_object_merge = λ top elt path. either_value (elt path) (top path);
  tostring = λ c path. c path;
  totime = λ c path. 259200;
}

abbrev merged : Bytes → Option Bytes
merged path =
    either_value (value_at ((codes "core.vdb", codes "lmdb") ∷ []) path) (value_at base path)

reads_file : read_vacation_config ucl (some (codes "x.conf")) parsed ≡ (ok, some merged)
unfolding read_vacation_config
reads_file = refl

lmdb_over_redis : merged (codes "core.vdb") ≡ some (codes "lmdb")
lmdb_over_redis = refl

read_vacation_config-Sources_example :
    (read_vacation_config ucl (some (codes "x.conf")) parsed ≡ (ok, some merged)) ↔ (
      (f : Option Bytes) × Reads ucl parsed (some (codes "x.conf")) f
      × Configured ucl parsed merged f)
read_vacation_config-Sources_example =
    read_vacation_config-Sources ucl parsed (some (codes "x.conf")) merged

-- What the runs of Tests/Main go by, but for the database, which the file names.
abbrev run_base : Values
run_base =
    (codes "core.domain", codes "umich.edu")
    ∷ (codes "core.sendmail", codes "/usr/sbin/simsendmail -f x $R")
    ∷ (codes "core.default_message", codes "away")
    ∷ (codes "core.subject_prefix", codes "Out")
    ∷ (codes "core.vdb", codes "redis")
    ∷ (codes "core.vlu", codes "null")
    ∷ []

abbrev run_ucl : Ucl
run_ucl = record ucl {
  ucl_parser_add_string = λ s. some (value_at run_base);
  totime = λ c path. 100;
}

abbrev outside : List (Bytes × Datum) → World mdb Unit
outside es = at_time es 1000

abbrev settings_host : Host (World mdb Unit) Bytes Unit
settings_host = record host { read_vacation_config = λ f w. read_settings run_ucl f parsed }

abbrev file_call : Call
file_call = record call { opts = config_opt (codes "x.conf") ∷ from_opt (codes "bob@ex.edu") ∷ [] }

reads_settings : read_settings run_ucl (some (codes "x.conf")) parsed ≡ some settings
unfolding read_settings read_vacation_config settings_of
reads_settings = refl

file_run : main model settings_host file_call (outside []) ≡ exited 0 (some mail) (outside stored)
unfolding main getopts read_settings read_vacation_config settings_of
file_run = first_run

main-GoesBy_example :
    GoesBy settings_host run_ucl
      (λ w. parsed)
      (getopts file_call.opts no_options).config_file
      (outside [])
main-GoesBy_example =
    main-GoesBy settings_host run_ucl (λ w. parsed) model file_call (outside []) (outside stored)
      (λ f w. refl) file_run
