-- ===== src/Main/Interval.antt =====
-- Two runs over one LMDB database: at most one reply within the interval.
use simvacation.Common.{
  [], ℕ, ◌+◌, ◌<◌, ◌≡◌, ◌≢◌, inl, inr, sym, ap, ◌∙◌, Option, none, some, Bytes, arith, lt→ltb,
}
use simvacation.Yasl.{Yasl}
use simvacation.Config.{Config}
use simvacation.Sender.{check_from}
use simvacation.Vdb.{ok, status_ok, VdbBackend, LmdbFunctions, with_lmdb, null_backend}
use simvacation.Vdb.Mdb.{Mdb, IsStore}
use simvacation.Vdb.Lmdb.{
  Opening, opened, with_path, lmdb_vdb_init, lmdb_vdb_close, lmdb_vdb_recent, lmdb_vdb_store_reply,
  lmdb_vdb_gc,
}
use simvacation.Vdb.Lmdb.Recent.{CanRead, recent_after_store}
use simvacation.Vlu.{VluBackend}
use simvacation.Reply.{Mail, Sending, crash, sent}
use simvacation.Main.{Call, Outcome, exited, done, finish, look_up, reply}
use simvacation.Main.Checks.{Found, Checked, look_up-mail}

-- The state outside: the database's environment, the clock that a run reads, and the rest.
pub record World (m : Mdb) (X : Type 0) : Type 0 where
  pub env : m.Env
  pub clock : Option ℕ
  pub rest : X

-- vdb_lmdb.c as the functions of a database.
unfoldable pub lmdb_functions :
    {X : Type 0} → Yasl → (m : Mdb) → Opening → LmdbFunctions (World m X) Bytes
lmdb_functions y m o = record {
  lmdb_init = λ rcpt w. (lmdb_vdb_init o rcpt, w);
  lmdb_close = lmdb_vdb_close;
  lmdb_recent = λ v from interval w. (lmdb_vdb_recent y m v from interval w.clock w.env, w);
  lmdb_store_reply = λ v from w. (
    (lmdb_vdb_store_reply y m v from w.clock w.env).0,
    record w { env = (lmdb_vdb_store_reply y m v from w.clock w.env).1 },
  );
  lmdb_gc = λ v w. record w { env = lmdb_vdb_gc y m w.clock w.env };
}

unfoldable pub lmdb_backend :
    {X : Type 0} → Yasl → (m : Mdb) → Opening → VdbBackend (World m X) Bytes
unfolding with_lmdb lmdb_functions
lmdb_backend y m o = with_lmdb (null_backend []) (lmdb_functions y m o)

opened_rcpt : (o : Opening) (rcpt : Bytes) {v : Bytes} → opened o rcpt ≡ some v → rcpt ≡ v
unfolding opened
opened_rcpt o rcpt h = ground arith

pub lmdb_vdb_init_rcpt :
    (path : Option Bytes) (o : Opening) (rcpt : Bytes) {v : Bytes}
    → with_path path o rcpt ≡ some v
    → rcpt ≡ v
unfolding with_path
lmdb_vdb_init_rcpt none o rcpt h = cc
lmdb_vdb_init_rcpt (some path) o rcpt h = opened_rcpt o rcpt h

-- The lookup leaves the database and the clock alone.
pub record KeepsReplies {m : Mdb} {X L : Type 0} (vlu : VluBackend (World m X) L) : Type 0 where
  pub search_keeps :
      (h : L) (r : Bytes) (w : World m X)
      → ((vlu.search h r w).1.env ≡ w.env) × ((vlu.search h r w).1.clock ≡ w.clock)
  pub group_search_keeps :
      (h : L) (r : Bytes) (w : World m X)
      → ((vlu.group_search h r w).1.env ≡ w.env) × ((vlu.group_search h r w).1.clock ≡ w.clock)
  pub close_keeps : (h : Option L) (w : World m X) → (vlu.close h w).env ≡ w.env

module _ {X L : Type 0} (y : Yasl) (m : Mdb) (s : IsStore m) (o : Opening) (config : Config)
    (vlu : VluBackend (World m X) L) (keeps : KeepsReplies vlu) (vluh : L) (rcpt : Bytes) where
  Found-keeps :
      (call : Call) (w w' : World m X)
      → Found y config call (lmdb_backend y m o) vlu vluh rcpt w w'
      → (w'.env ≡ w.env) × (w'.clock ≡ w.clock)
  Found-keeps call w w' (inl e) =
      let (a, b) = keeps.search_keeps vluh rcpt w in
      (sym (ap (λ p. p.1.env) e) ∙ a, sym (ap (λ p. p.1.clock) e) ∙ b)
  Found-keeps call w w' (inr (u, e, f)) =
      let (a, b) = keeps.search_keeps vluh rcpt w in
      let (c, d) = keeps.group_search_keeps vluh rcpt u in
      (
        sym (ap (λ p. p.1.env) f) ∙ c ∙ sym (ap (λ p. p.1.env) e) ∙ a,
        sym (ap (λ p. p.1.clock) f) ∙ d ∙ sym (ap (λ p. p.1.clock) e) ∙ b,
      )

  finish-mail :
      (call : Call) (vdb : VdbBackend (World m X) Bytes) (vdbh : Bytes) (w : World m X)
      (r : Sending) {c : ℕ} {mail : Mail} {w' : World m X}
      → finish y config call vdb vlu vluh rcpt vdbh w r ≡ exited c (some mail) w'
      → w' ≡ vlu.close (some vluh) (vdb.close (some vdbh) w)
  unfolding finish done
  finish-mail call vdb vdbh w crash h = cc
  finish-mail call vdb vdbh w (sent code some_mail) h = cc

  -- The handle, and the state that the database is asked in.
  Checked-begun :
      (call : Call) (from : Option Bytes) (w : World m X) (out : Outcome (World m X))
      (k : Checked y config call (lmdb_backend y m o) vlu vluh rcpt from w out)
      → (rcpt ≡ k.vdbh) × (k.begun.env ≡ w.env) × (k.begun.clock ≡ w.clock) × (k.asked ≡ k.begun)
  unfolding lmdb_backend lmdb_functions with_lmdb null_backend lmdb_vdb_init
  Checked-begun call from w out k =
      let (a, b) = Found-keeps call w k.searched k.found in
      let moved : k.searched ≡ k.begun = ap (λ p. p.1) k.opened in
      (
        lmdb_vdb_init_rcpt o.path o rcpt (ap (λ p. p.0) k.opened),
        rw (sym moved) a,
        rw (sym moved) b,
        sym (ap (λ p. p.1) k.not_recent),
      )

  -- What a run that comes to send a reply leaves behind: the database with that reply stored.
  look_up-stored :
      (call : Call) (sender canon : Bytes) (w w' : World m X) {c : ℕ} {mail : Mail}
      → check_from y sender ≡ some canon
      → look_up y config call (lmdb_backend y m o) vlu vluh rcpt (some sender) w
        ≡ exited c (some mail) w'
      → w'.env ≡ (lmdb_vdb_store_reply y m rcpt canon w.clock w.env).1
  unfolding lmdb_backend lmdb_functions with_lmdb null_backend reply lmdb_vdb_close
  look_up-stored call sender canon w w' accepted h =
      let k = look_up-mail y config call (lmdb_backend y m o) vlu vluh rcpt (some sender) w h in
      let (handle, env, clock, asked) = Checked-begun call (some sender) w _ k in
      let same_canon : k.canon ≡ canon = cc (k.given, k.accepted, accepted) in
      let left = finish-mail call (lmdb_backend y m o) k.vdbh _ _ k.replied in
      ap (λ u. u.env) left
      ∙ keeps.close_keeps (some vluh) _
      ∙ cc (handle, env, clock, asked, same_canon)

  look_up-asked :
      (call : Call) (sender canon : Bytes) (w w' : World m X) {c : ℕ} {mail : Mail}
      → check_from y sender ≡ some canon
      → look_up y config call (lmdb_backend y m o) vlu vluh rcpt (some sender) w
        ≡ exited c (some mail) w'
      → (begun : World m X) × Found y config call (lmdb_backend y m o) vlu vluh rcpt w begun
        × (lmdb_vdb_recent y m rcpt canon (vlu.interval vluh rcpt begun) w.clock w.env ≡ status_ok)
  unfolding lmdb_backend lmdb_functions with_lmdb null_backend
  look_up-asked call sender canon w w' accepted h =
      let k = look_up-mail y config call (lmdb_backend y m o) vlu vluh rcpt (some sender) w h in
      let (handle, env, clock, asked) = Checked-begun call (some sender) w _ k in
      let same_canon : k.canon ≡ canon = cc (k.given, k.accepted, accepted) in
      let moved : k.searched ≡ k.begun = ap (λ p. p.1) k.opened in
      (
        k.begun,
        rw (sym moved) k.found,
        cc (handle, env, clock, same_canon, ap (λ p. p.0) k.not_recent),
      )

  -- At most one reply within the interval: when a run at time `t` has come to send a reply, whether that
  -- worked or not, and has stored it, a later run for the same recipient, in the database that the
  -- first one left, does not come to send one to any sender with the same canonical form, while less
  -- than the interval has passed, the one that the second lookup gives where it finds the recipient.
  -- Both clocks can be read, and the later run can begin to read the database (where either fails there
  -- the code takes no reply for recent, and sends again); the lookup leaves the database and the clock
  -- alone.
  pub once_per_interval :
      (first second : Call) (sender sender' canon : Bytes) (w w' u u' : World m X) (t now : ℕ)
      {c c' : ℕ} {mail mail' : Mail}
      → check_from y sender ≡ some canon
      → check_from y sender' ≡ some canon
      → w.clock ≡ some t
      → look_up y config first (lmdb_backend y m o) vlu vluh rcpt (some sender) w
        ≡ exited c (some mail) w'
      → (lmdb_vdb_store_reply y m rcpt canon (some t) w.env).0 ≡ ok
      → CanRead m w'.env
      → u.env ≡ w'.env
      → u.clock ≡ some now
      → ((v : World m X)
          → Found y config second (lmdb_backend y m o) vlu vluh rcpt u v
          → now < t + vlu.interval vluh rcpt v)
      → look_up y config second (lmdb_backend y m o) vlu vluh rcpt (some sender') u
        ≢ exited c' (some mail') u'
  once_per_interval first second sender sender' canon w w' u u' t now a a' at_t run stored readable
        same later soon run' =
      let left : w'.env ≡ (lmdb_vdb_store_reply y m rcpt canon (some t) w.env).1 =
        rw (sym at_t) (look_up-stored first sender canon w w' a run) in
      let (begun, found, answer) = look_up-asked second sender' canon u u' a' run' in
      let seen =
        recent_after_store y m s rcpt canon t (vlu.interval vluh rcpt begun) now w.env stored
          (rw (sym left) readable) in
      cc (left, answer, seen, same, later, lt→ltb now _ (soon begun found))
