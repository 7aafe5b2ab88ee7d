-- ===== src/Vdb/Lmdb/Refines.antt =====
-- The database as the log of the replies that were stored: what it promises over any sequence of
-- calls.
use simvacation.Common.{
  ℕ, ◌+◌, ◌≡◌, ◌≢◌, refl, sym, ap, ◌∙◌, Bool, true, false, Option, none, some, List, [], ◌∷◌, Bytes,
  ltb, if◌then◌else◌, Bool-cases, inl, inr, same, same_sound, same_self,
}
use simvacation.Yasl.{Yasl}
use simvacation.Vdb.{ok, Status, status_ok, recent}
use simvacation.Vdb.Mdb.{Mdb, Datum, IsStore}
use simvacation.Vdb.Lmdb.{
  lmdb_vdb_key, lmdb_vdb_recent, lmdb_vdb_store_reply, store_at, commit_reply,
}
use simvacation.Vdb.Lmdb.Recent.{
  CanRead, verdict, verdict-none, verdict_time, recent-look, look-store_reply, look-store_reply_ne,
}

-- The calls that `main` makes: to store a reply at a time, and to ask for a recent one.
pub data DbCall : Type 0 where
  store_call : (rcpt from : Bytes) (t : ℕ) → DbCall
  recent_call : (rcpt from : Bytes) (interval now : ℕ) → DbCall

-- The specification: a log of keys and times, the last one first.
abbrev pub Log : Type 0
Log = List (Bytes × ℕ)

unfoldable pub last_reply : Log → Bytes → Option ℕ
last_reply [] k = none
last_reply ((j, t) ∷ log) k = let rest = last_reply log k in if same j k then some t else rest

pub within : Option ℕ → ℕ → ℕ → Status
within none interval now = status_ok
within (some t) interval now = if ltb now (t + interval) then recent else status_ok

-- The answers to the calls, in order, by the log.
pub promised : Yasl → List DbCall → Log → List Status
unfolding last_reply within
promised y [] log = []
promised y (store_call rcpt from t ∷ calls) log =
    promised y calls ((lmdb_vdb_key y rcpt from, t) ∷ log)
promised y (recent_call rcpt from interval now ∷ calls) log =
    within (last_reply log (lmdb_vdb_key y rcpt from)) interval now ∷ promised y calls log

abbrev stored_as : Option ℕ → Option Datum
stored_as none = none
stored_as (some t) = some (record { size = 8; value = t; address = 0 })

same-ne : {j k : Bytes} → j ≡ k → same j k ≢ false
same-ne {j} {k} e f = let t : same j k ≡ true = rw (sym e) (same_self j) in cc

-- No call of LMDB fails.
pub record NeverFails (m : Mdb) : Type 0 where
  pub begins : (ro : Bool) (e : m.Env) → (m.txn_begin ro e).0 ≡ 0
  pub opens : (t : m.Txn) → (m.dbi_open t).0 ≡ 0
  pub puts : (t : m.Txn) (k : Bytes) (d : Datum) → (m.put t k d).0 ≡ 0
  pub commits : (t : m.Txn) (e : m.Env) → (m.commit t e).0 ≡ 0

module _ (y : Yasl) (m : Mdb) where
  -- The same answers by the code.
  pub answered : List DbCall → m.Env → List Status
  answered [] env = []
  answered (store_call rcpt from t ∷ calls) env =
      answered calls (lmdb_vdb_store_reply y m rcpt from (some t) env).1
  answered (recent_call rcpt from interval now ∷ calls) env =
      lmdb_vdb_recent y m rcpt from interval (some now) env ∷ answered calls env

  module _ (s : IsStore m) (works : NeverFails m) where
    pub store_reply_ok :
        (rcpt from : Bytes) (t : ℕ) (env : m.Env)
        → (lmdb_vdb_store_reply y m rcpt from (some t) env).0 ≡ ok
    unfolding lmdb_vdb_store_reply store_at commit_reply
    store_reply_ok rcpt from t env =
        rw
          (
            works.begins false env,
            works.opens (m.txn_begin false env).1,
            works.puts _ _ _,
            works.commits _ _,
          )
          refl

    pub reads : (env : m.Env) → CanRead m env
    reads env = (works.begins true env, works.opens (m.txn_begin true env).1)

    -- What the keys hold is what the log has.
    abbrev pub Holds : m.Env → Log → Type 0
    Holds env log = (k : Bytes) → s.look env k ≡ stored_as (last_reply log k)

    verdict-within :
        (o : Option ℕ) (interval now : ℕ)
        → verdict y m s (stored_as o) interval (some now) ≡ within o interval now
    unfolding within
    verdict-within none interval now = verdict-none y m s interval (some now)
    verdict-within (some t) interval now = verdict_time y m s t 0 interval now

    store_reply-Holds :
        (rcpt from : Bytes) (t : ℕ) (env : m.Env) (log : Log)
        → Holds env log
        → Holds
            (lmdb_vdb_store_reply y m rcpt from (some t) env).1
            ((lmdb_vdb_key y rcpt from, t) ∷ log)
    unfolding last_reply
    store_reply-Holds rcpt from t env log h k =
        let key = lmdb_vdb_key y rcpt from in
        let stored = store_reply_ok rcpt from t env in
        elim (Bool-cases (same key k)) [
          | inl e ↦ rw e (
              ap (s.look (lmdb_vdb_store_reply y m rcpt from (some t) env).1)
                (sym (same_sound key k e))
              ∙ look-store_reply y m s rcpt from t env stored)
          | inr f ↦
              rw f (look-store_reply_ne y m s rcpt from t env k stored (λ e. same-ne e f) ∙ h k)
        ]

    -- Over any sequence of calls, whatever their times and intervals, the code answers what the log of
    -- the stored replies says, from a database that holds what a log has. No call of LMDB fails.
    pub answered-promised :
        (calls : List DbCall) (env : m.Env) (log : Log)
        → Holds env log
        → answered calls env ≡ promised y calls log
    unfolding answered promised
    answered-promised [] env log h = refl
    answered-promised (store_call rcpt from t ∷ calls) env log h =
        answered-promised calls _ _ (store_reply-Holds rcpt from t env log h)
    answered-promised (recent_call rcpt from interval now ∷ calls) env log h =
        ap (λ a. a ∷ answered calls env)
          (recent-look y m s rcpt from interval (some now) env (reads env)
            ∙ ap (λ o. verdict y m s o interval (some now)) (h (lmdb_vdb_key y rcpt from))
            ∙ verdict-within (last_reply log (lmdb_vdb_key y rcpt from)) interval now)
        ∙ ap (◌∷◌ (within (last_reply log (lmdb_vdb_key y rcpt from)) interval now))
            (answered-promised calls env log h)
