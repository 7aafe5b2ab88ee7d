-- ===== src/Unvacation/Cleanup.antt =====
-- Whom simunvacation cleans up after.
use simvacation.Common.{
  ◌≡◌, refl, ap, ◌∙◌, Bool, true, false, Option, none, some, List, [], ◌∷◌, Bytes, codes,
  if◌then◌else◌,
}
use mathlib.Core.Path.{subst}
use simvacation.Config.{Config}
use simvacation.Vdb.{VacResult, ok, tempfail, permfail, VdbBackend, vdb_backend}
use simvacation.Vdb.Backends.{Every, KeepsNoNames, vdb_backend-KeepsNoNames}
use simvacation.Vlu.{VluBackend, vlu_backend}
use simvacation.Main.{Host}
use simvacation.Unvacation.{
  Flag, flags, ended, clean_found, clean_names, sweep, lookup_opened, lookup_chosen, lookup_named,
  database_opened, database_chosen, database_named, config_read, flags_read, simunvacation_main,
}

abbrev pub is_gone : VacResult → Bool
is_gone permfail = true
is_gone _ = false

-- The names that the lookup refuses for good.
abbrev pub gone : (Bytes → VacResult) → List Bytes → List Bytes
gone answer [] = []
gone answer (name ∷ names) =
    if is_gone (answer name) then name ∷ gone answer names else gone answer names

module _ {W V L : Type 0} (vdb : VdbBackend W V) (vlu : VluBackend W L) (vdbh : V) (vluh : L) where
  abbrev pub clean_all : List Bytes → W → W
  clean_all [] w = w
  clean_all (name ∷ names) w = clean_all names (vdb.clean vdbh name w)

  clean_found-gone :
      (r : VacResult) (name : Bytes) (names : List Bytes) (w : W)
      → clean_all names (clean_found vdb vlu vdbh vluh name (r, w))
        ≡ clean_all (if is_gone r then name ∷ names else names) w
  unfolding clean_found
  clean_found-gone ok name names w = refl
  clean_found-gone tempfail name names w = refl
  clean_found-gone permfail name names w = refl

  -- The names that are cleaned up are those that the lookup refuses for good, each once for each
  -- time that it is listed and in that order; one that it fails for is left alone. The answers of the
  -- lookup do not depend on the state, and it does not change that.
  pub clean_names-gone :
      (answer : Bytes → VacResult)
      → ((name : Bytes) (w : W) → vlu.search vluh name w ≡ (answer name, w))
      → (names : List Bytes) (w : W)
      → clean_names vdb vlu vdbh vluh names w ≡ clean_all (gone answer names) w
  unfolding clean_names
  clean_names-gone answer h [] w = refl
  clean_names-gone answer h (name ∷ names) w =
      clean_names-gone answer h names _
      ∙ ap (λ p. clean_all (gone answer names) (clean_found vdb vlu vdbh vluh name p)) (h name w)
      ∙ clean_found-gone (answer name) name (gone answer names) w

module _ {W V L : Type 0} (host : Host W V L) (opts : List Flag) (w : W) where
  -- What a run that gets to its loop has gone through.
  pub record Begun : Type 0 where
    pub config_file : Option Bytes
    pub config : Config
    pub vdb_name : Bytes
    pub vdb : VdbBackend W V
    pub vdbh : V
    pub opened : W
    pub vlu_name : Bytes
    pub vlu : VluBackend W L
    pub vluh : L
    pub ready : W
    pub good_flags : flags opts none ≡ some config_file
    pub configured : host.read_vacation_config config_file w ≡ some config
    pub names_vdb : config.core_vdb ≡ some vdb_name
    pub has_vdb : vdb_backend host.blank host.urcl host.lmdb vdb_name ≡ some vdb
    pub opens : vdb.init (codes "simunvacation") w ≡ (some vdbh, opened)
    pub names_vlu : config.core_vlu ≡ some vlu_name
    pub has_vlu : vlu_backend host.allocated host.ldap config vlu_name ≡ some vlu
    pub inits : vlu.init opened ≡ (some vluh, ready)

  no_names : (b : Begun) → b.vdb.get_names b.vdbh b.opened ≡ []
  no_names b =
      let keeps : Every KeepsNoNames (some b.vdb) =
        subst (λ o. Every KeepsNoNames o) b.has_vdb
          (vdb_backend-KeepsNoNames host.blank host.urcl host.lmdb b.vdb_name) in
      keeps.0 b.vdbh b.opened

  -- Whatever the build, the configuration and the lookup: a run that gets to its loop only collects
  -- the database's old entries. It looks nobody up and cleans up after nobody.
  pub simunvacation_main-Begun :
      (b : Begun)
      → simunvacation_main host opts w
        ≡ ended 0 (b.vlu.close (some b.vluh) (b.vdb.close (some b.vdbh) (b.vdb.gc b.vdbh b.ready)))
  unfolding simunvacation_main flags_read config_read database_named database_chosen database_opened
      lookup_named lookup_chosen lookup_opened sweep clean_names
  simunvacation_main-Begun b =
      ap (λ o. flags_read host o w) b.good_flags
      ∙ ap (λ o. config_read host o w) b.configured
      ∙ ap (λ o. database_named host b.config o w) b.names_vdb
      ∙ ap (λ o. database_chosen host b.config o w) b.has_vdb
      ∙ ap (database_opened host b.config b.vdb) b.opens
      ∙ ap (λ names. lookup_named host b.config b.vdb b.vdbh names b.config.core_vlu b.opened)
          (no_names b)
      ∙ ap (λ o. lookup_named host b.config b.vdb b.vdbh [] o b.opened) b.names_vlu
      ∙ ap (λ o. lookup_chosen host b.vdb b.vdbh [] o b.opened) b.has_vlu
      ∙ ap (lookup_opened host b.vdb b.vdbh [] b.vlu) b.inits
