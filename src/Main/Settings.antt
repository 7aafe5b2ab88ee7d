-- ===== src/Main/Settings.antt =====
-- `main` with read_vacation_config: the settings behind a reply.
use simvacation.Common.{ℕ, ◌≡◌, ap, ◌∙◌, sym, Option, some, Bytes, codes}
use simvacation.Yasl.{Yasl}
use simvacation.Config.Ucl.{Ucl}
use simvacation.Config.Reading.{read_settings, settings_of, Reads, Configured}
use simvacation.Config.Reading.Sources.{read_settings-Sources}
use simvacation.Vdb.{VdbBackend, vdb_backend}
use simvacation.Vlu.{VluBackend, vlu_backend}
use simvacation.Reply.{Mail}
use simvacation.Main.{Call, no_options, getopts, Host, exited, main}
use simvacation.Main.Start.{main-mail}

module _ {W V L : Type 0} (host : Host W V L) (u : Ucl) (files : W → u.Files) where
  -- The host reads the configuration by the code.
  abbrev pub ReadsByCode : Type 0
  ReadsByCode =
      (f : Option Bytes) (w : W) → host.read_vacation_config f w ≡ read_settings u f (files w)

  -- The object that the settings are taken from, and what it names.
  pub record GoesBy (config_file : Option Bytes) (w : W) : Type 0 where
    pub vac_config : u.Object
    pub file : Option Bytes
    pub reads : Reads u (files w) config_file file
    pub sources : Configured u (files w) vac_config file
    pub vdb_name : Bytes
    pub vdb : VdbBackend W V
    pub names_vdb : u.tostring vac_config (codes "core.vdb") ≡ some vdb_name
    pub has_vdb : vdb_backend host.blank host.urcl host.lmdb vdb_name ≡ some vdb
    pub vlu_name : Bytes
    pub vlu : VluBackend W L
    pub names_vlu : u.tostring vac_config (codes "core.vlu") ≡ some vlu_name
    pub has_vlu :
        vlu_backend host.allocated host.ldap (settings_of u vac_config) vlu_name ≡ some vlu

  -- A run comes to send a reply only if the text of the build and the file of the option `-c`, or else
  -- the default file where it is there, can be parsed, and the object of the second over the first
  -- names, as `core.vdb` and `core.vlu`, a database and a lookup that the build has. The host reads
  -- the configuration by the code.
  pub main-GoesBy :
      (y : Yasl) (call : Call) (w w' : W) {c : ℕ} {mail : Mail}
      → ReadsByCode
      → main y host call w ≡ exited c (some mail) w'
      → GoesBy (getopts call.opts no_options).config_file w
  unfolding settings_of
  main-GoesBy y call w w' reads run =
      let k = main-mail y host call w run in
      let o = getopts call.opts no_options in
      let (obj, f, r, s, e) =
        read_settings-Sources u (files w) o.config_file k.config
          (sym (reads o.config_file w) ∙ k.configured_by) in
      record {
        vac_config = obj;
        file = f;
        reads = r;
        sources = s;
        vdb_name = k.vdb_name;
        vdb = k.vdb;
        names_vdb = ap (λ x. x.core_vdb) e ∙ k.names_vdb;
        has_vdb = k.has_vdb;
        vlu_name = k.vlu_name;
        vlu = k.vlu;
        names_vlu = ap (λ x. x.core_vlu) e ∙ k.names_vlu;
        has_vlu = rw e k.has_vlu;
      }
