-- ===== src/Tests/Unvacation.antt =====
-- Runs of the program that cleans up.
use simvacation.Common.{
  ℕ, ◌+◌, ◌==◌, ◌≡◌, refl, none, some, [], ◌∷◌, Bytes, codes, if◌then◌else◌, length,
}
use simvacation.CString.{strcasecmp, tolower}
use simvacation.Config.{Config}
use simvacation.Vdb.{VacResult, ok, permfail, VdbBackend, null_backend, vdb_backend}
use simvacation.Vlu.{VluBackend, null_vlu, vlu_backend}
use simvacation.Main.{Host}
use simvacation.Unvacation.{debug_flag, flags, ended, clean_names, simunvacation_main}
use simvacation.Unvacation.Cleanup.{
  gone, clean_all, clean_names-gone, Begun, simunvacation_main-Begun,
}

abbrev settings : Config
settings = record {
  core_vdb = some (codes "null");
  core_vlu = some (codes "NULL");
  core_domain = none;
  core_sendmail = none;
  core_default_message = none;
  core_subject_prefix = none;
  core_interval = 0;
}

abbrev host : Host ℕ ℕ Unit
host = record {
  read_vacation_config = λ file w. some settings;
  blank = 7;
  urcl = none;
  lmdb = none;
  allocated = some tt;
  ldap = none;
}

abbrev vdb : VdbBackend ℕ ℕ
vdb = null_backend 7

abbrev vlu : VluBackend ℕ Unit
vlu = null_vlu (some tt) settings

begun : Begun host (debug_flag ∷ []) 3
unfolding vdb_backend vlu_backend null_backend null_vlu strcasecmp tolower
begun = record {
  config_file = none;
  config = settings;
  vdb_name = codes "null";
  vdb = vdb;
  vdbh = 7;
  opened = 3;
  vlu_name = codes "NULL";
  vlu = vlu;
  vluh = tt;
  ready = 3;
  good_flags = unfold flags in refl;
  configured = refl;
  names_vdb = refl;
  has_vdb = refl;
  opens = refl;
  names_vlu = refl;
  has_vlu = refl;
  inits = refl;
}

simunvacation_main-Begun_example :
    simunvacation_main host (debug_flag ∷ []) 3
    ≡ ended 0 (
        begun.vlu.close
          (some begun.vluh)
          (begun.vdb.close (some begun.vdbh) (begun.vdb.gc begun.vdbh begun.ready)))
simunvacation_main-Begun_example = simunvacation_main-Begun host (debug_flag ∷ []) 3 begun

-- A database that counts the bytes of the names that it cleans, and a lookup that knows only `al`.
abbrev answer : Bytes → VacResult
answer name = if length name == 2 then ok else permfail

abbrev counting : VdbBackend ℕ ℕ
counting = record vdb { clean = λ v name w. w + length name }

abbrev choosy : VluBackend ℕ Unit
choosy = record vlu { search = λ h name w. (answer name, w) }

clean_names-gone_example :
    clean_names counting choosy 7 tt (codes "al" ∷ codes "bob" ∷ codes "carol" ∷ []) 0
    ≡ clean_all counting choosy 7 tt (gone answer (codes "al" ∷ codes "bob" ∷ codes "carol" ∷ [])) 0
clean_names-gone_example =
    clean_names-gone counting choosy 7 tt answer (λ name w. refl)
      (codes "al" ∷ codes "bob" ∷ codes "carol" ∷ []) 0
