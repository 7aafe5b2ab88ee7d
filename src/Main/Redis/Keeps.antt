-- ===== src/Main/Redis/Keeps.antt =====
-- Redis, where connections do not fail, meets the contract of Main/Memory for less than a week.
use simvacation.Common.{
  ℕ, ◌+◌, ◌^◌, ◌<◌, ◌≡◌, refl, sym, ap, ◌∙◌, true, Option, none, some, Bytes, lt→ltb, if◌then◌else◌,
  ℤ,
}
use mathlib.Core.Path.{subst}
use simvacation.CString.Number.{snprintf_decimal}
use simvacation.Yasl.{Yasl}
use simvacation.Vdb.{status_ok, recent, VdbBackend, with_redis}
use simvacation.Vdb.Urcl.{Urcl, IsRedis, IsSteady}
use simvacation.Vdb.Redis.{
  RedisConfig, VdbRedis, redis_vdb_key, connected, connect_to, redis_vdb_init, redis_vdb_close,
  redis_vdb_store_reply,
}
use simvacation.Vdb.Redis.Recent.{
  verdict, recent-verdict, recent-Up, verdict-decimal, look-stored, ttl-stored,
}
use simvacation.Main.Memory.{Remembers}
use simvacation.Main.Redis.{RedisWorld, redis_functions, redis_backend}

module _ (y : Yasl) (u : Urcl) (r : IsRedis u) (steady : IsSteady u r) where
  -- What an open connection is: to the same keys, and it works.
  abbrev Opened : Bytes → u.Server → VdbRedis u → u.Server → Type 0
  Opened rcpt s v s' = (v.rcpt ≡ rcpt) × r.Up v.redis s' × ((k : Bytes) → r.look s' k ≡ r.look s k)

  abbrev OpenedAs : Bytes → u.Server → Option (VdbRedis u) × u.Server → Type 0
  OpenedAs rcpt s (none, s') = Unit
  OpenedAs rcpt s (some v, s') = Opened rcpt s v s'

  connected-OpenedAs :
      (host rcpt : Bytes) (port : ℤ) (s : u.Server) (p : Option u.Handle × u.Server)
      → u.urcl_connect host port s ≡ p
      → OpenedAs rcpt s (connected y u rcpt p)
  unfolding connected
  connected-OpenedAs host rcpt port s (none, s') e = tt
  connected-OpenedAs host rcpt port s (some redis, s') e =
      let made : (u.urcl_connect host port s).1 ≡ s' = ap (λ p. p.1) e in
      (
        refl,
        subst (r.Up redis) made (steady.up_connect host port s redis (ap (λ p. p.0) e)),
        λ k. ap (λ t. r.look t k) (sym made) ∙ steady.look_connect host port s k,
      )

  connect_to-OpenedAs :
      (host : Option Bytes) (port : Option ℤ) (rcpt : Bytes) (s : u.Server)
      → OpenedAs rcpt s (connect_to y u true host port rcpt s)
  unfolding connect_to
  connect_to-OpenedAs none port rcpt s = tt
  connect_to-OpenedAs (some host) none rcpt s = tt
  connect_to-OpenedAs (some host) (some port) rcpt s =
      connected-OpenedAs host rcpt port s (u.urcl_connect host port s) refl

  init-Opened :
      (config : RedisConfig) (rcpt : Bytes) (s s' : u.Server) (v : VdbRedis u)
      → redis_vdb_init y u true config rcpt s ≡ (some v, s')
      → Opened rcpt s v s'
  unfolding redis_vdb_init
  init-Opened config rcpt s s' v h =
      subst (OpenedAs rcpt s) h (connect_to-OpenedAs config.redis_host config.redis_port rcpt s)

  module _ {X : Type 0} (blank : VdbRedis u) (config : RedisConfig) where
    abbrev pub backend : VdbBackend (RedisWorld u X) (VdbRedis u)
    backend = redis_backend y u blank config

    abbrev pub Stored : ℕ → Bytes → Bytes → RedisWorld u X → Type 0
    Stored t rcpt canon w =
        (t < 10 ^ 15)
        × (r.look w.server (redis_vdb_key y rcpt canon) ≡ some (snprintf_decimal 16 t))

    abbrev pub Kept : ℕ → Bytes → Bytes → RedisWorld u X → Type 0
    Kept t rcpt canon w =
        Stored t rcpt canon w × (r.ttl w.server (redis_vdb_key y rcpt canon) ≡ some 604800)

    -- Less than a week passes on the server.
    abbrev pub WithinWeek : RedisWorld u X → RedisWorld u X → Type 0
    WithinWeek w v = (n : ℕ) × (n < 604800) × (v.server ≡ r.later n w.server)

    pub Kept-Stored :
        (t : ℕ) (rcpt canon : Bytes) (w v : RedisWorld u X)
        → Kept t rcpt canon w
        → WithinWeek w v
        → Stored t rcpt canon v
    Kept-Stored t rcpt canon w v ((fits, held), ttl) (n, week, later) = (
      fits,
      ap (λ s. r.look s (redis_vdb_key y rcpt canon)) later
          ∙ r.look_later n 604800 w.server _ ttl
          ∙ ap (λ b. if b then r.look w.server (redis_vdb_key y rcpt canon) else none)
              (lt→ltb n 604800 week)
          ∙ held,
    )

    -- What `init` has done where it gives a handle.
    init-parts :
        (rcpt : Bytes) (w begun : RedisWorld u X) (v : VdbRedis u)
        → backend.init rcpt w ≡ (some v, begun)
        → Opened rcpt w.server v begun.server × (begun.clock ≡ w.clock)
    unfolding redis_backend with_redis redis_functions
    init-parts rcpt w begun v h = (
      init-Opened config rcpt w.server begun.server v (ap (λ p. (p.0, p.1.server)) h),
      sym (ap (λ p. p.1.clock) h),
    )

    pub Stored-recent :
        (t now interval : ℕ) (rcpt canon : Bytes) (w begun : RedisWorld u X) (v : VdbRedis u)
        → Stored t rcpt canon w
        → backend.init rcpt w ≡ (some v, begun)
        → w.clock ≡ some now
        → now < t + interval
        → (backend.recent v canon interval begun).0 ≡ recent
    unfolding redis_backend with_redis redis_functions
    Stored-recent t now interval rcpt canon w begun v (fits, held) opened clock soon =
        let ((same, up, look), clock') = init-parts rcpt w begun v opened in
        let found : r.look begun.server (redis_vdb_key y v.rcpt canon)
            ≡ some (snprintf_decimal 16 t) =
          ap (λ a. r.look begun.server (redis_vdb_key y a canon)) same ∙ look _ ∙ held in
        recent-verdict y u r v canon interval begun.clock begun.server _ up found
        ∙ ap (verdict y u r (some (snprintf_decimal 16 t)) interval) (clock' ∙ clock)
        ∙ verdict-decimal y u r t interval now fits
        ∙ ap (λ b. if b then recent else status_ok) (lt→ltb now (t + interval) soon)

    pub store-Kept :
        (t interval : ℕ) (rcpt canon : Bytes) (w begun asked : RedisWorld u X) (v : VdbRedis u)
        → t < 10 ^ 15
        → backend.init rcpt w ≡ (some v, begun)
        → backend.recent v canon interval begun ≡ (status_ok, asked)
        → w.clock ≡ some t
        → Kept t rcpt canon (backend.close (some v) (backend.store_reply v canon asked).1)
    unfolding redis_backend with_redis redis_functions redis_vdb_close
    store-Kept t interval rcpt canon w begun asked v fits opened answered clock =
        let ((same, up, look), clock') = init-parts rcpt w begun v opened in
        let key : redis_vdb_key y v.rcpt canon ≡ redis_vdb_key y rcpt canon =
          ap (λ a. redis_vdb_key y a canon) same in
        let up' : r.Up v.redis asked.server =
          subst (r.Up v.redis) (ap (λ p. p.1.server) answered)
            (recent-Up y u r v canon interval begun.clock begun.server up) in
        let at_t : asked.clock ≡ some t = sym (ap (λ p. p.1.clock) answered) ∙ clock' ∙ clock in
        let s' = (redis_vdb_store_reply y u v canon (some t) asked.server).1 in
        let held = ap (r.look s') (sym key) ∙ look-stored y u r v canon t asked.server up' in
        let expires = ap (r.ttl s') (sym key) ∙ ttl-stored y u r v canon t asked.server up' in
        rw at_t
          ((fits, steady.look_free v.redis s' _ ∙ held), steady.ttl_free v.redis s' _ ∙ expires)

    abbrev pub redis-Remembers : Remembers backend
    redis-Remembers = record {
      clock = λ w. w.clock;
      Fits = λ t. t < 10 ^ 15;
      Left = Kept;
      Holds = Stored;
      Passes = WithinWeek;
      passes_holds = Kept-Stored;
      store_leaves = store-Kept;
      holds_recent = Stored-recent;
    }
