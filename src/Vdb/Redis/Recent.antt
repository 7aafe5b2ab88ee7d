-- ===== src/Vdb/Redis/Recent.antt =====
-- `redis_vdb_recent` and `redis_vdb_store_reply` together.
use simvacation.Common.{
  ℤ, pos, ℕ, ◌+◌, ◌^◌, ◌<◌, ◌≡◌, ◌≢◌, refl, ap, ◌∙◌, Bool, true, false, ◌&&◌, Option, none, some,
  Bytes, ltb, if◌then◌else◌, arith, Bool-cases, inl, inr,
}
use simvacation.CString.Number.{snprintf_decimal, strtoll}
use simvacation.CString.Number.RoundTrip.{strtoll-snprintf_decimal}
use simvacation.Yasl.{Yasl}
use simvacation.Vdb.{Status, status_ok, recent}
use simvacation.Vdb.Urcl.{Urcl, RedisReply, string_reply, other_reply, del_command, IsRedis}
use simvacation.Vdb.Redis.{
  VdbRedis, redis_vdb_key, before, compare_times, check_reply, redis_vdb_recent,
  redis_vdb_store_reply,
}

module _ (y : Yasl) (u : Urcl) (r : IsRedis u) where
  check_reply-string :
      (vdb : VdbRedis u) (key v : Bytes) (interval : ℕ) (now : Option ℕ)
      (p : Option RedisReply × u.Server)
      → p.0 ≡ some (string_reply v)
      → check_reply y u vdb key interval now p
        ≡ compare_times y u vdb key (strtoll v) interval now p.1
  unfolding check_reply
  check_reply-string vdb key v interval now (none, s) h = cc
  check_reply-string vdb key v interval now (some (other_reply type), s) h = cc
  check_reply-string vdb key v interval now (some (string_reply str), s) h =
      let e : str ≡ v = cc in ap (λ w. compare_times y u vdb key (strtoll w) interval now s) e

  check_reply_missing :
      (vdb : VdbRedis u) (key : Bytes) (interval : ℕ) (now : Option ℕ)
      (p : Option RedisReply × u.Server)
      → ((v : Bytes) → p.0 ≢ some (string_reply v))
      → check_reply y u vdb key interval now p ≡ (status_ok, p.1)
  unfolding check_reply
  check_reply_missing vdb key interval now (none, s) h = refl
  check_reply_missing vdb key interval now (some (other_reply type), s) h = refl
  check_reply_missing vdb key interval now (some (string_reply str), s) h = absurd (h str refl)

  -- What the code makes of what a key holds.
  pub verdict : Option Bytes → ℕ → Option ℕ → Status
  verdict none interval now = status_ok
  verdict (some v) interval none = status_ok
  verdict (some v) interval (some now) =
      if before now (strtoll v) interval then recent else status_ok

  compare_times-verdict :
      (vdb : VdbRedis u) (key v : Bytes) (interval : ℕ) (now : Option ℕ) (s : u.Server)
      → (compare_times y u vdb key (strtoll v) interval now s).0 ≡ verdict (some v) interval now
  unfolding compare_times verdict
  compare_times-verdict vdb key v interval none s = refl
  compare_times-verdict vdb key v interval (some now) s =
      elim (Bool-cases (before now (strtoll v) interval)) [ inl t ↦ rw t refl | inr f ↦ rw f refl ]

  -- Where the connection works, the answer goes by what the key holds, and by nothing else.
  pub recent-verdict :
      (vdb : VdbRedis u) (from : Bytes) (interval : ℕ) (now : Option ℕ) (s : u.Server)
      (o : Option Bytes)
      → r.Up vdb.redis s
      → r.look s (redis_vdb_key y vdb.rcpt from) ≡ o
      → (redis_vdb_recent y u vdb from interval now s).0 ≡ verdict o interval now
  unfolding redis_vdb_recent verdict
  recent-verdict vdb from interval now s none up h =
      ap (λ p. p.0)
        (check_reply_missing vdb _ interval now _ (λ v. r.get_missing vdb.redis s _ v h))
  recent-verdict vdb from interval now s (some v) up h =
      ap (λ p. p.0) (check_reply-string vdb _ v interval now _ (r.get_found vdb.redis s _ v up h))
      ∙ compare_times-verdict vdb _ v interval now _

  compare_times-Up :
      (vdb : VdbRedis u) (key : Bytes) (last : ℤ) (interval : ℕ) (now : Option ℕ) (s : u.Server)
      → r.Up vdb.redis s
      → r.Up vdb.redis (compare_times y u vdb key last interval now s).1
  unfolding compare_times
  compare_times-Up vdb key last interval none s up = up
  compare_times-Up vdb key last interval (some now) s up =
      elim (Bool-cases (before now last interval)) [
        | inl t ↦ rw t up
        | inr f ↦ rw f (r.up_command vdb.redis (del_command key) s up)
      ]

  check_reply-Up :
      (vdb : VdbRedis u) (key : Bytes) (interval : ℕ) (now : Option ℕ)
      (p : Option RedisReply × u.Server)
      → r.Up vdb.redis p.1
      → r.Up vdb.redis (check_reply y u vdb key interval now p).1
  unfolding check_reply
  check_reply-Up vdb key interval now (none, s) up = up
  check_reply-Up vdb key interval now (some (other_reply type), s) up = up
  check_reply-Up vdb key interval now (some (string_reply str), s) up =
      compare_times-Up vdb key (strtoll str) interval now s up

  -- A connection that works goes on working.
  pub recent-Up :
      (vdb : VdbRedis u) (from : Bytes) (interval : ℕ) (now : Option ℕ) (s : u.Server)
      → r.Up vdb.redis s
      → r.Up vdb.redis (redis_vdb_recent y u vdb from interval now s).1
  unfolding redis_vdb_recent
  recent-Up vdb from interval now s up =
      check_reply-Up vdb _ interval now _ (r.up_command vdb.redis _ s up)

  abbrev key_of : VdbRedis u → Bytes → Bytes
  key_of vdb from = redis_vdb_key y vdb.rcpt from

  -- The server with a reply stored at a time.
  abbrev pub stored : VdbRedis u → Bytes → ℕ → u.Server → u.Server
  stored vdb from t s = (redis_vdb_store_reply y u vdb from (some t) s).1

  pub look-stored :
      (vdb : VdbRedis u) (from : Bytes) (t : ℕ) (s : u.Server)
      → r.Up vdb.redis s
      → r.look (stored vdb from t s) (key_of vdb from) ≡ some (snprintf_decimal 16 t)
  unfolding redis_vdb_store_reply
  look-stored vdb from t s up =
      r.look_expire vdb.redis _ _ _ 604800 (omega arith) ∙ r.look_set vdb.redis s _ _ up

  pub ttl-stored :
      (vdb : VdbRedis u) (from : Bytes) (t : ℕ) (s : u.Server)
      → r.Up vdb.redis s
      → r.ttl (stored vdb from t s) (key_of vdb from) ≡ some 604800
  unfolding redis_vdb_store_reply
  ttl-stored vdb from t s up =
      r.ttl_expire vdb.redis _ _ _ 604800 (r.up_command vdb.redis _ s up)
        (r.look_set vdb.redis s _ _ up)

  pub verdict-decimal :
      (t interval now : ℕ)
      → t < 10 ^ 15
      → verdict (some (snprintf_decimal 16 t)) interval (some now)
        ≡ (if ltb now (t + interval) then recent else status_ok)
  unfolding verdict before
  verdict-decimal t interval now h = rw (strtoll-snprintf_decimal 14 t h (omega arith))

  if-both :
      (week : Bool) (v : Bytes) (interval now t : ℕ)
      → verdict (some v) interval (some now)
        ≡ (if ltb now (t + interval) then recent else status_ok)
      → verdict (if week then some v else none) interval (some now)
        ≡ (if week && ltb now (t + interval) then recent else status_ok)
  unfolding verdict
  if-both true v interval now t h = h
  if-both false v interval now t h = refl

  -- A reply that was stored at time `t` is recent, `n` seconds of the server later and at time `now` of
  -- the clock, exactly while a week has not passed there and `now` is less than `interval` behind
  -- `t`. The connection works, and the time has at most 15 digits.
  pub recent-redis_vdb_store_reply :
      (vdb : VdbRedis u) (from : Bytes) (t n interval now : ℕ) (s : u.Server)
      → t < 10 ^ 15
      → r.Up vdb.redis s
      → r.Up vdb.redis (r.later n (redis_vdb_store_reply y u vdb from (some t) s).1)
      → (redis_vdb_recent y u vdb from interval
          (some now)
          (r.later n (redis_vdb_store_reply y u vdb from (some t) s).1)).0
        ≡ (if ltb n 604800 && ltb now (t + interval) then recent else status_ok)
  recent-redis_vdb_store_reply vdb from t n interval now s h up up' =
      let held =
        r.look_later n 604800 (stored vdb from t s) (key_of vdb from) (ttl-stored vdb from t s up)
        ∙ ap (λ o. if ltb n 604800 then o else none) (look-stored vdb from t s up) in
      recent-verdict vdb from interval (some now) _ _ up' held
      ∙ if-both (ltb n 604800) _ interval now t (verdict-decimal t interval now h)

  look-store_reply_ne :
      (vdb : VdbRedis u) (from j : Bytes) (t : ℕ) (s : u.Server)
      → key_of vdb from ≢ j
      → r.look (stored vdb from t s) j ≡ r.look s j
  unfolding redis_vdb_store_reply
  look-store_reply_ne vdb from j t s ne =
      r.look_expire vdb.redis _ _ _ 604800 (omega arith) ∙ r.look_set_ne vdb.redis s _ _ j ne

  look-compare_times :
      (vdb : VdbRedis u) (key v : Bytes) (interval now : ℕ) (s : u.Server)
      → r.Up vdb.redis s
      → r.look s key ≡ some v
      → r.look (compare_times y u vdb key (strtoll v) interval (some now) s).1 key
        ≡ (if before now (strtoll v) interval then some v else none)
  unfolding compare_times
  look-compare_times vdb key v interval now s up h =
      elim (Bool-cases (before now (strtoll v) interval)) [
        | inl t ↦ rw t h
        | inr f ↦ rw f (r.look_del vdb.redis s key up)
      ]

  recent_kept_before :
      (vdb : VdbRedis u) (from v : Bytes) (interval now : ℕ) (s : u.Server)
      → r.Up vdb.redis s
      → r.look s (redis_vdb_key y vdb.rcpt from) ≡ some v
      → ((redis_vdb_recent y u vdb from interval (some now) s).0
          ≡ (if before now (strtoll v) interval then recent else status_ok))
        × (r.look
              (redis_vdb_recent y u vdb from interval (some now) s).1
              (redis_vdb_key y vdb.rcpt from)
            ≡ (if before now (strtoll v) interval then some v else none))
  unfolding redis_vdb_recent verdict
  recent_kept_before vdb from v interval now s up h =
      let asked =
        check_reply-string vdb (key_of vdb from) v interval (some now) _
          (r.get_found vdb.redis s _ v up h) in
      (
        recent-verdict vdb from interval (some now) s (some v) up h,
        ap (λ p. r.look p.1 (key_of vdb from)) asked
            ∙ look-compare_times vdb (key_of vdb from) v interval now _
                (r.up_command vdb.redis _ s up) (r.look_get vdb.redis s _ _ ∙ h),
      )

  -- Asking cleans up: where the key holds a text that `strtoll` reads as the time `t`, the answer is
  -- `recent` and the text stays exactly while `now` is less than `interval` behind `t`; else the key is
  -- deleted. The connection works, the clock can be read, and the end of the interval is below 2 ^ 63.
  pub recent_deletes_outdated :
      (vdb : VdbRedis u) (from v : Bytes) (t interval now : ℕ) (s : u.Server)
      → r.Up vdb.redis s
      → r.look s (redis_vdb_key y vdb.rcpt from) ≡ some v
      → strtoll v ≡ pos t
      → t + interval < 2 ^ 63
      → ((redis_vdb_recent y u vdb from interval (some now) s).0
          ≡ (if ltb now (t + interval) then recent else status_ok))
        × (r.look
              (redis_vdb_recent y u vdb from interval (some now) s).1
              (redis_vdb_key y vdb.rcpt from)
            ≡ (if ltb now (t + interval) then some v else none))
  unfolding before
  recent_deletes_outdated vdb from v t interval now s up h number fits =
      let (answer, left) = recent_kept_before vdb from v interval now s up h in
      (
        answer ∙ ap (λ n. if before now n interval then recent else status_ok) number,
        left ∙ ap (λ n. if before now n interval then some v else none) number,
      )
