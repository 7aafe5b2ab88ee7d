-- ===== src/Main/Lmdb.antt =====
-- LMDB, where no call of it fails, meets the contract of Main/Memory: no time has to pass, and none is
-- too much.
use simvacation.Common.{ℕ, ◌+◌, ◌<◌, ◌≡◌, sym, ap, ◌∙◌, some, Bytes, lt→ltb, if◌then◌else◌}
use simvacation.Yasl.{Yasl}
use simvacation.Vdb.{status_ok, recent, VdbBackend, with_lmdb}
use simvacation.Vdb.Mdb.{Mdb, IsStore}
use simvacation.Vdb.Lmdb.{Opening, lmdb_vdb_init, lmdb_vdb_close, lmdb_vdb_key}
use simvacation.Vdb.Lmdb.Recent.{recent-look, look-store_reply, verdict, verdict_time}
use simvacation.Vdb.Lmdb.Refines.{NeverFails, store_reply_ok, reads}
use simvacation.Main.Interval.{World, lmdb_functions, lmdb_backend, lmdb_vdb_init_rcpt}
use simvacation.Main.Memory.{Remembers}

module _ {X : Type 0} (y : Yasl) (m : Mdb) (s : IsStore m) (works : NeverFails m)
    (o : Opening) where
  abbrev backend : VdbBackend (World m X) Bytes
  backend = lmdb_backend y m o

  abbrev pub Stored : ℕ → Bytes → Bytes → World m X → Type 0
  Stored t rcpt canon w =
      s.look w.env (lmdb_vdb_key y rcpt canon) ≡ some (record { size = 8; value = t; address = 0 })

  abbrev pub SameEnv : World m X → World m X → Type 0
  SameEnv w u = u.env ≡ w.env

  pub Stored-SameEnv :
      (t : ℕ) (rcpt canon : Bytes) (w u : World m X)
      → Stored t rcpt canon w
      → SameEnv w u
      → Stored t rcpt canon u
  Stored-SameEnv t rcpt canon w u h e = ap (λ env. s.look env (lmdb_vdb_key y rcpt canon)) e ∙ h

  -- The handle is the recipient's name, and `init` changes nothing.
  init-handle :
      (rcpt v : Bytes) (w begun : World m X)
      → backend.init rcpt w ≡ (some v, begun)
      → (rcpt ≡ v) × (w ≡ begun)
  unfolding lmdb_backend with_lmdb lmdb_functions lmdb_vdb_init
  init-handle rcpt v w begun h =
      (lmdb_vdb_init_rcpt o.path o rcpt (ap (λ p. p.0) h), ap (λ p. p.1) h)

  pub store-Stored :
      (t interval : ℕ) (rcpt canon : Bytes) (w begun asked : World m X) (v : Bytes)
      → Unit {0}
      → backend.init rcpt w ≡ (some v, begun)
      → backend.recent v canon interval begun ≡ (status_ok, asked)
      → w.clock ≡ some t
      → Stored t rcpt canon (backend.close (some v) (backend.store_reply v canon asked).1)
  unfolding lmdb_backend with_lmdb lmdb_functions lmdb_vdb_close
  store-Stored t interval rcpt canon w begun asked v fits opened answered clock =
      let (same, moved) = init-handle rcpt v w begun opened in
      let at_t : asked.clock ≡ some t =
        sym (ap (λ p. p.1.clock) answered) ∙ sym (ap (λ u. u.clock) moved) ∙ clock in
      rw (at_t, sym same)
        (look-store_reply y m s rcpt canon t asked.env
          (store_reply_ok y m s works rcpt canon t asked.env))

  pub Stored-recent :
      (t now interval : ℕ) (rcpt canon : Bytes) (w begun : World m X) (v : Bytes)
      → Stored t rcpt canon w
      → backend.init rcpt w ≡ (some v, begun)
      → w.clock ≡ some now
      → now < t + interval
      → (backend.recent v canon interval begun).0 ≡ recent
  unfolding lmdb_backend with_lmdb lmdb_functions
  Stored-recent t now interval rcpt canon w begun v held opened clock soon =
      let (same, moved) = init-handle rcpt v w begun opened in
      rw (sym same, sym moved, clock)
        (recent-look y m s rcpt canon interval (some now) w.env (reads y m s works w.env)
          ∙ ap (λ d. verdict y m s d interval (some now)) held
          ∙ verdict_time y m s t 0 interval now
          ∙ ap (λ b. if b then recent else status_ok) (lt→ltb now (t + interval) soon))

  abbrev pub lmdb-Remembers : Remembers backend
  lmdb-Remembers = record {
    clock = λ w. w.clock;
    Fits = λ t. Unit;
    Left = Stored;
    Holds = Stored;
    Passes = SameEnv;
    passes_holds = Stored-SameEnv;
    store_leaves = store-Stored;
    holds_recent = Stored-recent;
  }
