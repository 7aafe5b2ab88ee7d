-- ===== src/Vdb/Lmdb/Recent.antt =====
-- `lmdb_vdb_recent` and `lmdb_vdb_store_reply` together: a reply is remembered for the interval.
use simvacation.Common.{
  ℕ, ◌+◌, ◌<◌, ◌≡◌, ◌≢◌, refl, ap, ◌∙◌, sym, Bool, true, false, not, ◌&&◌, Bool-cases, inl, inr,
  Option, none, some, Bytes, ◌==◌, ltb, if◌then◌else◌, arith, ne→==_false,
}
use simvacation.Yasl.{Yasl}
use simvacation.Vdb.{ok, Status, status_ok, recent}
use simvacation.Vdb.Mdb.{Mdb, Datum, IsStore}
use simvacation.Vdb.Lmdb.{
  lmdb_vdb_key, check_time, check_data, lmdb_vdb_recent, lmdb_vdb_store_reply, store_at,
  commit_reply,
}

-- The calls that begin to read in an environment succeed.
abbrev pub CanRead : (m : Mdb) → m.Env → Type 0
CanRead m e = ((m.txn_begin true e).0 ≡ 0) × ((m.dbi_open (m.txn_begin true e).1).0 ≡ 0)

-- The same as a test.
abbrev pub can_read : (m : Mdb) → m.Env → Bool
can_read m e = ((m.txn_begin true e).0 == 0) && ((m.dbi_open (m.txn_begin true e).1).0 == 0)

can_read-CanRead : (m : Mdb) (e : m.Env) → can_read m e ≡ true → CanRead m e
can_read-CanRead m e h = (ground arith, ground arith)

not-if : (b : Bool) (x : Status) → (if not b then status_ok else x) ≡ (if b then x else status_ok)
not-if true x = refl
not-if false x = refl

module _ (y : Yasl) (m : Mdb) (s : IsStore m) where
  -- What the code makes of what a key holds.
  pub verdict : Option Datum → ℕ → Option ℕ → Status
  verdict none interval now = status_ok
  verdict (some d) interval now =
      if d.size == 8 then check_time y m d.value interval now else status_ok

  pub verdict-none : (interval : ℕ) (now : Option ℕ) → verdict none interval now ≡ status_ok
  unfolding verdict
  verdict-none interval now = refl

  pub verdict_time :
      (t address interval now : ℕ)
      → verdict (some (record { size = 8; value = t; address = address })) interval (some now)
        ≡ (if ltb now (t + interval) then recent else status_ok)
  unfolding verdict check_time
  verdict_time t address interval now = refl

  get-verdict :
      (t : m.Txn) (k : Bytes) (o : Option Datum) (interval : ℕ) (now : Option ℕ)
      → s.view t k ≡ o
      → check_data y m (m.get t k).0 (m.get t k).1 interval now ≡ verdict o interval now
  unfolding check_data verdict
  get-verdict t k none interval now e = rw (ne→==_false _ 0 (s.get_missing t k e))
  get-verdict t k (some d) interval now e =
      let (found, size, value) = s.get_found t k d e in
      rw (found, size, value) (not-if (d.size == 8) (check_time y m d.value interval now))

  -- Where it can read, `lmdb_vdb_recent` goes by what the key holds, and by nothing else.
  pub recent-look :
      (rcpt from : Bytes) (interval : ℕ) (now : Option ℕ) (env : m.Env)
      → CanRead m env
      → lmdb_vdb_recent y m rcpt from interval now env
        ≡ verdict (s.look env (lmdb_vdb_key y rcpt from)) interval now
  unfolding lmdb_vdb_recent
  recent-look rcpt from interval now env (b, o) =
      let k = lmdb_vdb_key y rcpt from in
      let seen = s.view_open _ k o ∙ s.view_begin true env k b in
      rw (b, o) (get-verdict _ k (s.look env k) interval now seen)

  -- The transaction of `lmdb_vdb_store_reply`, with its database open.
  abbrev writing : m.Env → m.Txn
  writing env = (m.dbi_open (m.txn_begin false env).1).1

  abbrev reply_at : ℕ → Datum
  reply_at t = record { size = 8; value = t; address = 0 }

  -- What a stored reply has gone through.
  record Stored (rcpt from : Bytes) (t : ℕ) (env : m.Env) : Type 0 where
    began : (m.txn_begin false env).0 ≡ 0
    opened : (m.dbi_open (m.txn_begin false env).1).0 ≡ 0
    written : (m.put (writing env) (lmdb_vdb_key y rcpt from) (reply_at t)).0 ≡ 0
    committed : (m.commit (m.put (writing env) (lmdb_vdb_key y rcpt from) (reply_at t)).1 env).0 ≡ 0
    after :
        (lmdb_vdb_store_reply y m rcpt from (some t) env).1
        ≡ (m.commit (m.put (writing env) (lmdb_vdb_key y rcpt from) (reply_at t)).1 env).1

  store_reply-Stored :
      (rcpt from : Bytes) (t : ℕ) (env : m.Env)
      → (lmdb_vdb_store_reply y m rcpt from (some t) env).0 ≡ ok
      → Stored rcpt from t env
  unfolding lmdb_vdb_store_reply store_at commit_reply
  store_reply-Stored rcpt from t env h = record {
    began = ground arith;
    opened = ground arith;
    written = ground arith;
    committed = ground arith;
    after = ground arith;
  }

  pub look-store_reply :
      (rcpt from : Bytes) (t : ℕ) (env : m.Env)
      → (lmdb_vdb_store_reply y m rcpt from (some t) env).0 ≡ ok
      → s.look (lmdb_vdb_store_reply y m rcpt from (some t) env).1 (lmdb_vdb_key y rcpt from)
        ≡ some (reply_at t)
  look-store_reply rcpt from t env h =
      let w = store_reply-Stored rcpt from t env h in
      rw w.after (s.look_commit _ env _ w.committed ∙ s.view_put _ _ (reply_at t) w.written)

  pub look-store_reply_ne :
      (rcpt from : Bytes) (t : ℕ) (env : m.Env) (j : Bytes)
      → (lmdb_vdb_store_reply y m rcpt from (some t) env).0 ≡ ok
      → lmdb_vdb_key y rcpt from ≢ j
      → s.look (lmdb_vdb_store_reply y m rcpt from (some t) env).1 j ≡ s.look env j
  look-store_reply_ne rcpt from t env j h ne =
      let w = store_reply-Stored rcpt from t env h in
      rw w.after (
        s.look_commit _ env j w.committed
        ∙ s.view_put_ne _ _ j (reply_at t) w.written ne
        ∙ s.view_open _ j w.opened
        ∙ s.view_begin false env j w.began)

  pub recent_after_store :
      (rcpt from : Bytes) (t interval now : ℕ) (env : m.Env)
      → (lmdb_vdb_store_reply y m rcpt from (some t) env).0 ≡ ok
      → CanRead m (lmdb_vdb_store_reply y m rcpt from (some t) env).1
      → lmdb_vdb_recent y m rcpt from interval
          (some now)
          (lmdb_vdb_store_reply y m rcpt from (some t) env).1
        ≡ (if ltb now (t + interval) then recent else status_ok)
  recent_after_store rcpt from t interval now env h r =
      recent-look rcpt from interval (some now) _ r
      ∙ ap (λ o. verdict o interval (some now)) (look-store_reply rcpt from t env h)
      ∙ verdict_time t 0 interval now

  recent_unreadable :
      (rcpt from : Bytes) (interval : ℕ) (now : Option ℕ) (env : m.Env)
      → can_read m env ≡ false
      → lmdb_vdb_recent y m rcpt from interval now env ≡ status_ok
  unfolding lmdb_vdb_recent
  recent_unreadable rcpt from interval now env h = ground arith

  -- A reply that was stored at time `t` is recent at `now` exactly if the transaction that reads begins
  -- and opens the database, and `now` is less than `interval` behind `t`, for the same recipient and
  -- sender. Storing has succeeded in LMDB. Where reading fails, the answer is that none is recent. The
  -- clock can be read.
  pub recent-store_reply :
      (rcpt from : Bytes) (t interval now : ℕ) (env : m.Env)
      → (lmdb_vdb_store_reply y m rcpt from (some t) env).0 ≡ ok
      → lmdb_vdb_recent y m rcpt from interval
          (some now)
          (lmdb_vdb_store_reply y m rcpt from (some t) env).1
        ≡ (if can_read m (lmdb_vdb_store_reply y m rcpt from (some t) env).1
              && ltb now (t + interval)
            then recent
            else status_ok)
  recent-store_reply rcpt from t interval now env h =
      let after = (lmdb_vdb_store_reply y m rcpt from (some t) env).1 in
      elim (Bool-cases (can_read m after)) [
        | inl r ↦
            rw r (recent_after_store rcpt from t interval now env h (can_read-CanRead m after r))
        | inr f ↦ rw f (recent_unreadable rcpt from interval (some now) after f)
      ]

  -- A reply that is stored changes the answer for no recipient and sender with another key.
  pub recent-store_reply_ne :
      (rcpt from rcpt' from' : Bytes) (t interval : ℕ) (now : Option ℕ) (env : m.Env)
      → (lmdb_vdb_store_reply y m rcpt from (some t) env).0 ≡ ok
      → CanRead m env
      → CanRead m (lmdb_vdb_store_reply y m rcpt from (some t) env).1
      → lmdb_vdb_key y rcpt from ≢ lmdb_vdb_key y rcpt' from'
      → lmdb_vdb_recent y m rcpt' from' interval now
          (lmdb_vdb_store_reply y m rcpt from (some t) env).1
        ≡ lmdb_vdb_recent y m rcpt' from' interval now env
  recent-store_reply_ne rcpt from rcpt' from' t interval now env h r r' ne =
      recent-look rcpt' from' interval now _ r'
      ∙ ap (λ o. verdict o interval now) (look-store_reply_ne rcpt from t env _ h ne)
      ∙ sym (recent-look rcpt' from' interval now env r)

  recent-CanRead :
      (rcpt from : Bytes) (interval : ℕ) (now : Option ℕ) (env : m.Env)
      → lmdb_vdb_recent y m rcpt from interval now env ≡ recent
      → CanRead m env
  unfolding lmdb_vdb_recent
  recent-CanRead rcpt from interval now env h = (ground arith, ground arith)

  verdict_recent :
      (o : Option Datum) (interval : ℕ) (now : Option ℕ)
      → verdict o interval now ≡ recent
      → (d : Datum) × (t : ℕ) × (o ≡ some d)
        × (d.size ≡ 8)
        × (now ≡ some t)
        × (t < d.value + interval)
  unfolding verdict check_time
  verdict_recent none interval now h = cc
  verdict_recent (some d) interval none h = absurd (ground arith)
  verdict_recent (some d) interval (some t) h = (d, t, refl, ground arith, refl, ground arith)

  -- A reply is suppressed only for a stored one: the code answers `recent` only if the key holds a time
  -- of the right size, the clock could be read, and it stands less than `interval` behind that time.
  pub recent_only_if_stored :
      (rcpt from : Bytes) (interval : ℕ) (now : Option ℕ) (env : m.Env)
      → lmdb_vdb_recent y m rcpt from interval now env ≡ recent
      → (d : Datum) × (t : ℕ) × (s.look env (lmdb_vdb_key y rcpt from) ≡ some d)
        × (d.size ≡ 8)
        × (now ≡ some t)
        × (t < d.value + interval)
  recent_only_if_stored rcpt from interval now env h = verdict_recent _ interval now (
      sym (recent-look rcpt from interval now env (recent-CanRead rcpt from interval now env h))
      ∙ h)
