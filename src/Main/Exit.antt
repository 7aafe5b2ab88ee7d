-- ===== src/Main/Exit.antt =====
-- How a run ends, on every path through `main`, and why.
pub mod Reasons
use simvacation.Common.{
  ℕ, ◌≡◌, ◌≢◌, refl, Bool, Bool-cases, inl, inr, ==_iff, not, Option, none, some, List, [], ◌∷◌,
  Bytes, ◌==◌, if◌then◌else◌,
}
use mathlib.Core.Path.{subst}
use simvacation.Yasl.{Yasl}
use simvacation.Config.{Config}
use simvacation.Vdb.{VdbBackend, vdb_backend}
use simvacation.Vlu.{VluBackend, vlu_backend}
use simvacation.Reply.{Mail}
use simvacation.Main.{
  Call, Options, no_options, getopts, Host, Outcome, crashed, exited, done, look_up, with_lookup,
  with_vlu, name_vlu, with_database, name_vdb, configured, with_options, main,
}
use simvacation.Main.Exit.Reasons.{Reason, look_up-Reason}

module _ {W V L : Type 0} (y : Yasl) (host : Host W V L) (call : Call) (w : W) where
  abbrev pub options : Options
  options = getopts call.opts no_options

  -- What has been passed: the options, the configuration, and the database and lookup that it names.
  abbrev pub Called : Bytes → Type 0
  Called rcpt = ((rest : List Bytes) × (call.argv ≡ rcpt ∷ rest)) × (options.retval ≡ 0)

  abbrev pub Configured : Bytes → Config → Type 0
  Configured rcpt config =
      Called rcpt × (host.read_vacation_config options.config_file w ≡ some config)

  abbrev pub Names : Config → Option (VdbBackend W V) → Type 0
  Names config o =
      (name : Bytes) × (config.core_vdb ≡ some name)
      × (vdb_backend host.blank host.urcl host.lmdb name ≡ o)

  abbrev pub NamesVlu : Config → Option (VluBackend W L) → Type 0
  NamesVlu config o =
      (name : Bytes) × (config.core_vlu ≡ some name)
      × (vlu_backend host.allocated host.ldap config name ≡ o)

  -- Each end of a run with its cause: the exit code, and the reply that the run came to send.
  pub data Ends : ℕ → Option Mail → Type 0 where
    no_recipient : call.argv ≡ [] → Ends 64 none
    bad_options : options.retval ≢ 0 → Ends 64 none
    unconfigured :
        {rcpt : Bytes}
        → Called rcpt
        → host.read_vacation_config options.config_file w ≡ none
        → Ends 75 none
    no_database :
        {rcpt : Bytes} {config : Config} → Configured rcpt config → Names config none → Ends 75 none
    no_lookup :
        {rcpt : Bytes} {config : Config} {vdb : VdbBackend W V}
        → Configured rcpt config
        → Names config (some vdb)
        → NamesVlu config none
        → Ends 75 none
    not_connected :
        {rcpt : Bytes} {config : Config} {vdb : VdbBackend W V} {vlu : VluBackend W L} {u : W}
        → Configured rcpt config
        → Names config (some vdb)
        → NamesVlu config (some vlu)
        → vlu.init w ≡ (none, u)
        → Ends 75 none
    looked_up :
        {rcpt : Bytes} {config : Config} {vdb : VdbBackend W V} {vlu : VluBackend W L} {vluh : L}
        {u : W} {c : ℕ} {mail : Option Mail}
        → Configured rcpt config
        → Names config (some vdb)
        → NamesVlu config (some vlu)
        → vlu.init w ≡ (some vluh, u)
        → Reason y config call vdb vlu vluh rcpt options.from u c mail
        → Ends c mail

  -- The same of an outcome: nothing is said of a crash.
  abbrev Good : Outcome W → Type 0
  Good (crashed u) = Unit
  Good (exited c mail u) = Ends c mail

  looked_up-Good :
      (rcpt : Bytes) (config : Config) (vdb : VdbBackend W V) (vlu : VluBackend W L) (vluh : L)
      (u : W) (out : Outcome W)
      → Configured rcpt config
      → Names config (some vdb)
      → NamesVlu config (some vlu)
      → vlu.init w ≡ (some vluh, u)
      → look_up y config call vdb vlu vluh rcpt options.from u ≡ out
      → Good out
  looked_up-Good rcpt config vdb vlu vluh u (crashed v) c n m i e = tt
  looked_up-Good rcpt config vdb vlu vluh u (exited code mail v) c n m i e =
      looked_up c n m i (look_up-Reason y config call vdb vlu vluh rcpt options.from u e)

  with_lookup-Good :
      (rcpt : Bytes) (config : Config) (vdb : VdbBackend W V) (vlu : VluBackend W L)
      (p : Option L × W)
      → Configured rcpt config
      → Names config (some vdb)
      → NamesVlu config (some vlu)
      → vlu.init w ≡ p
      → Good (with_lookup y host call options.from rcpt config vdb vlu p)
  unfolding with_lookup done
  with_lookup-Good rcpt config vdb vlu (none, u) c n m i = not_connected c n m i
  with_lookup-Good rcpt config vdb vlu (some vluh, u) c n m i =
      looked_up-Good rcpt config vdb vlu vluh u _ c n m i refl

  with_vlu-Good :
      (rcpt : Bytes) (config : Config) (vdb : VdbBackend W V) (o : Option (VluBackend W L))
      → Configured rcpt config
      → Names config (some vdb)
      → NamesVlu config o
      → Good (with_vlu y host call options.from rcpt config vdb o w)
  unfolding with_vlu
  with_vlu-Good rcpt config vdb none c n m = no_lookup c n m
  with_vlu-Good rcpt config vdb (some vlu) c n m = with_lookup-Good rcpt config vdb vlu _ c n m refl

  name_vlu-Good :
      (rcpt : Bytes) (config : Config) (vdb : VdbBackend W V) (o : Option Bytes)
      → Configured rcpt config
      → Names config (some vdb)
      → config.core_vlu ≡ o
      → Good (name_vlu y host call options.from rcpt config vdb o w)
  unfolding name_vlu
  name_vlu-Good rcpt config vdb none c n e = tt
  name_vlu-Good rcpt config vdb (some name) c n e =
      with_vlu-Good rcpt config vdb _ c n (name, e, refl)

  with_database-Good :
      (rcpt : Bytes) (config : Config) (o : Option (VdbBackend W V))
      → Configured rcpt config
      → Names config o
      → Good (with_database y host call options.from rcpt config o w)
  unfolding with_database
  with_database-Good rcpt config none c n = no_database c n
  with_database-Good rcpt config (some vdb) c n = name_vlu-Good rcpt config vdb _ c n refl

  name_vdb-Good :
      (rcpt : Bytes) (config : Config) (o : Option Bytes)
      → Configured rcpt config
      → config.core_vdb ≡ o
      → Good (name_vdb y host call options.from rcpt config o w)
  unfolding name_vdb
  name_vdb-Good rcpt config none c e = tt
  name_vdb-Good rcpt config (some name) c e = with_database-Good rcpt config _ c (name, e, refl)

  configured-Good :
      (rcpt : Bytes) (o : Option Config)
      → Called rcpt
      → host.read_vacation_config options.config_file w ≡ o
      → Good (configured y host call options.from rcpt o w)
  unfolding configured
  configured-Good rcpt none c e = unconfigured c e
  configured-Good rcpt (some config) c e = name_vdb-Good rcpt config _ (c, e) refl

  with_options-Good :
      (argv : List Bytes) → call.argv ≡ argv → Good (with_options y host call options argv w)
  unfolding with_options
  with_options-Good [] e = no_recipient e
  with_options-Good (rcpt ∷ rest) e = elim (Bool-cases (options.retval == 0)) [
    | inl t ↦ rw t (configured-Good rcpt _ ((rest, e), (==_iff options.retval 0).0 t) refl)
    | inr f ↦ rw f (bad_options (λ z. cc (f, (==_iff options.retval 0).1 z)))
  ]

  main-Good : Good (main y host call w)
  unfolding main
  main-Good = with_options-Good call.argv refl

  -- A run that does not crash ends with code 64 only where it is called without a recipient or with
  -- bad options; with 75 where the configuration is not read, the database or the lookup that it names
  -- is not there, the lookup does not open, or a search fails for now; with 0 and no reply where no
  -- search finds the recipient, the database does not open, the header asks for no reply or does not
  -- name the recipient, the sender is not accepted, or a reply to it is recent; and after all these
  -- checks with 0 and a text that is printed, or with 75 and none.
  pub main-Ends :
      (w' : W) {c : ℕ} {mail : Option Mail} → main y host call w ≡ exited c mail w' → Ends c mail
  main-Ends w' h = subst (λ out. Good out) h main-Good
