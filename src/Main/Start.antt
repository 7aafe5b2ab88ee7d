-- ===== src/Main/Start.antt =====
-- From the options to the lookup: what has gone before, where `main` comes to send a reply.
use simvacation.Common.{
  ℕ, ◌≡◌, inl, inr, Bool-cases, refl, not, Option, none, some, List, [], ◌∷◌, Bytes, ◌==◌,
  if◌then◌else◌, ==_iff,
}
use simvacation.Yasl.{Yasl}
use simvacation.Config.{Config}
use simvacation.Vdb.{VdbBackend, vdb_backend}
use simvacation.Vlu.{VluBackend, vlu_backend}
use simvacation.Reply.{Mail}
use simvacation.Main.{
  Call, Options, no_options, getopts, Host, Outcome, exited, done, look_up, with_lookup, with_vlu,
  name_vlu, with_database, name_vdb, configured, with_options, main,
}
use simvacation.Main.Checks.{Checked, look_up-mail}

module _ {W V L : Type 0} (y : Yasl) (host : Host W V L) (call : Call) where
  -- The program is called with a recipient and good options, the configuration is read, and it names
  -- a database and a lookup that the build has; then come the checks.
  pub record Started (w : W) (out : Outcome W) : Type 0 where
    pub rcpt : Bytes
    pub rest : List Bytes
    pub config : Config
    pub vdb_name : Bytes
    pub vdb : VdbBackend W V
    pub vlu_name : Bytes
    pub vlu : VluBackend W L
    pub vluh : L
    pub ready : W
    pub called : call.argv ≡ rcpt ∷ rest
    pub options : (getopts call.opts no_options).retval ≡ 0
    pub configured_by :
        host.read_vacation_config (getopts call.opts no_options).config_file w ≡ some config
    pub names_vdb : config.core_vdb ≡ some vdb_name
    pub has_vdb : vdb_backend host.blank host.urcl host.lmdb vdb_name ≡ some vdb
    pub names_vlu : config.core_vlu ≡ some vlu_name
    pub has_vlu : vlu_backend host.allocated host.ldap config vlu_name ≡ some vlu
    pub inits : vlu.init w ≡ (some vluh, ready)
    pub checked :
        Checked y config call vdb vlu vluh rcpt (getopts call.opts no_options).from ready out

  module _ {c : ℕ} {mail : Mail} {w' : W} where
    with_lookup-mail :
        (from : Option Bytes) (rcpt : Bytes) (config : Config) (vdb : VdbBackend W V)
        (vlu : VluBackend W L) (p : Option L × W)
        → with_lookup y host call from rcpt config vdb vlu p ≡ exited c (some mail) w'
        → (vluh : L) × (ready : W) × (p ≡ (some vluh, ready))
          × (look_up y config call vdb vlu vluh rcpt from ready ≡ exited c (some mail) w')
    unfolding with_lookup done
    with_lookup-mail from rcpt config vdb vlu (none, w) h = cc
    with_lookup-mail from rcpt config vdb vlu (some vluh, w) h = (vluh, w, refl, h)

    with_vlu-mail :
        (from : Option Bytes) (rcpt : Bytes) (config : Config) (vdb : VdbBackend W V)
        (o : Option (VluBackend W L)) (w : W)
        → with_vlu y host call from rcpt config vdb o w ≡ exited c (some mail) w'
        → (vlu : VluBackend W L) × (o ≡ some vlu)
          × (with_lookup y host call from rcpt config vdb vlu (vlu.init w)
              ≡ exited c (some mail) w')
    unfolding with_vlu
    with_vlu-mail from rcpt config vdb none w h = cc
    with_vlu-mail from rcpt config vdb (some vlu) w h = (vlu, refl, h)

    name_vlu-mail :
        (from : Option Bytes) (rcpt : Bytes) (config : Config) (vdb : VdbBackend W V)
        (o : Option Bytes) (w : W)
        → name_vlu y host call from rcpt config vdb o w ≡ exited c (some mail) w'
        → (name : Bytes) × (o ≡ some name)
          × (with_vlu y host call from rcpt config vdb
                (vlu_backend host.allocated host.ldap config name)
                w
              ≡ exited c (some mail) w')
    unfolding name_vlu
    name_vlu-mail from rcpt config vdb none w h = cc
    name_vlu-mail from rcpt config vdb (some name) w h = (name, refl, h)

    with_database-mail :
        (from : Option Bytes) (rcpt : Bytes) (config : Config) (o : Option (VdbBackend W V)) (w : W)
        → with_database y host call from rcpt config o w ≡ exited c (some mail) w'
        → (vdb : VdbBackend W V) × (o ≡ some vdb)
          × (name_vlu y host call from rcpt config vdb config.core_vlu w ≡ exited c (some mail) w')
    unfolding with_database
    with_database-mail from rcpt config none w h = cc
    with_database-mail from rcpt config (some vdb) w h = (vdb, refl, h)

    name_vdb-mail :
        (from : Option Bytes) (rcpt : Bytes) (config : Config) (o : Option Bytes) (w : W)
        → name_vdb y host call from rcpt config o w ≡ exited c (some mail) w'
        → (name : Bytes) × (o ≡ some name)
          × (with_database y host call from rcpt config
                (vdb_backend host.blank host.urcl host.lmdb name)
                w
              ≡ exited c (some mail) w')
    unfolding name_vdb
    name_vdb-mail from rcpt config none w h = cc
    name_vdb-mail from rcpt config (some name) w h = (name, refl, h)

    configured-mail :
        (from : Option Bytes) (rcpt : Bytes) (o : Option Config) (w : W)
        → configured y host call from rcpt o w ≡ exited c (some mail) w'
        → (config : Config) × (o ≡ some config)
          × (name_vdb y host call from rcpt config config.core_vdb w ≡ exited c (some mail) w')
    unfolding configured
    configured-mail from rcpt none w h = cc
    configured-mail from rcpt (some config) w h = (config, refl, h)

    if-mail :
        (r : ℕ) (w : W) (next : Outcome W)
        → (if not (r == 0) then exited 64 none w else next) ≡ exited c (some mail) w'
        → (r ≡ 0) × (next ≡ exited c (some mail) w')
    if-mail r w next h = elim (Bool-cases (r == 0)) [
      | inl t ↦ ((==_iff r 0).0 t, rw t at h)
      | inr f ↦ let h = rw f at h in cc
    ]

    with_options-mail :
        (o : Options) (argv : List Bytes) (w : W)
        → with_options y host call o argv w ≡ exited c (some mail) w'
        → (rcpt : Bytes) × (rest : List Bytes) × (argv ≡ rcpt ∷ rest)
          × (o.retval ≡ 0)
          × (configured y host call o.from rcpt (host.read_vacation_config o.config_file w) w
              ≡ exited c (some mail) w')
    unfolding with_options
    with_options-mail o [] w h = cc
    with_options-mail o (rcpt ∷ rest) w h =
        let (r, k) = if-mail o.retval w _ h in (rcpt, rest, refl, r, k)

    -- The program comes to send a reply only if it is called with a recipient and good options, reads
    -- its configuration, has the database and the lookup that this names, finds the recipient, opens
    -- the database, reads headers that name the recipient, accepts the sender, and the database has no
    -- recent reply; and what it does then is `reply`, which stores the reply first.
    pub main-mail :
        (w : W) → main y host call w ≡ exited c (some mail) w' → Started w (exited c (some mail) w')
    unfolding main
    main-mail w h =
        let o = getopts call.opts no_options in
        let (rcpt, rest, a, r, h) = with_options-mail o call.argv w h in
        let (config, b, h) = configured-mail o.from rcpt _ w h in
        let (vdb_name, p, h) = name_vdb-mail o.from rcpt config _ w h in
        let (vdb, d, h) = with_database-mail o.from rcpt config _ w h in
        let (vlu_name, q, h) = name_vlu-mail o.from rcpt config vdb _ w h in
        let (vlu, e, h) = with_vlu-mail o.from rcpt config vdb _ w h in
        let (vluh, ready, i, h) = with_lookup-mail o.from rcpt config vdb vlu _ h in
        record {
          rcpt = rcpt;
          rest = rest;
          config = config;
          vdb_name = vdb_name;
          vdb = vdb;
          vlu_name = vlu_name;
          vlu = vlu;
          vluh = vluh;
          ready = ready;
          called = a;
          options = r;
          configured_by = b;
          names_vdb = p;
          has_vdb = d;
          names_vlu = q;
          has_vlu = e;
          inits = i;
          checked = look_up-mail y config call vdb vlu vluh rcpt o.from ready h;
        }
