-- ===== src/Main/Memory.antt =====
-- What `main` relies on a database for, whatever it is: that a reply is remembered. With that, two
-- runs come to send at most one reply within the interval.
use simvacation.Common.{ℕ, ◌+◌, ◌<◌, ◌≡◌, ◌≢◌, inl, inr, sym, ap, ◌∙◌, Option, some, Bytes}
use mathlib.Core.Path.{subst}
use simvacation.Yasl.{Yasl}
use simvacation.Config.{Config}
use simvacation.Sender.{check_from}
use simvacation.Vdb.{status_ok, recent, VdbBackend}
use simvacation.Vlu.{VluBackend}
use simvacation.Reply.{Mail, Sending, crash, sent}
use simvacation.Main.{Call, exited, done, finish, look_up, reply}
use simvacation.Main.Checks.{Found, look_up-mail}

-- The contract, over what a state holds for a recipient and the canonical form of a sender.
pub record Remembers {W V : Type 0} (vdb : VdbBackend W V) : Type 1 where
  pub clock : W → Option ℕ
  -- The times that the database can hold.
  pub Fits : ℕ → Type 0
  -- A run has left a reply of that time, and a later run finds it.
  pub Left : (t : ℕ) (rcpt canon : Bytes) → W → Type 0
  pub Holds : (t : ℕ) (rcpt canon : Bytes) → W → Type 0
  -- The time that may pass between the two.
  pub Passes : W → W → Type 0
  pub passes_holds :
      (t : ℕ) (rcpt canon : Bytes) (w u : W)
      → Left t rcpt canon w
      → Passes w u
      → Holds t rcpt canon u
  pub store_leaves :
      (t interval : ℕ) (rcpt canon : Bytes) (w begun asked : W) (h : V)
      → Fits t
      → vdb.init rcpt w ≡ (some h, begun)
      → vdb.recent h canon interval begun ≡ (status_ok, asked)
      → clock w ≡ some t
      → Left t rcpt canon (vdb.close (some h) (vdb.store_reply h canon asked).1)
  pub holds_recent :
      (t now interval : ℕ) (rcpt canon : Bytes) (w begun : W) (h : V)
      → Holds t rcpt canon w
      → vdb.init rcpt w ≡ (some h, begun)
      → clock w ≡ some now
      → now < t + interval
      → (vdb.recent h canon interval begun).0 ≡ recent

-- The lookup leaves what is remembered and the clock alone.
pub record KeepsMemory {W V L : Type 0} {vdb : VdbBackend W V} (r : Remembers vdb)
    (vlu : VluBackend W L) : Type 0 where
  pub search_clock : (h : L) (rcpt : Bytes) (w : W) → r.clock (vlu.search h rcpt w).1 ≡ r.clock w
  pub group_search_clock :
      (h : L) (rcpt : Bytes) (w : W) → r.clock (vlu.group_search h rcpt w).1 ≡ r.clock w
  pub search_holds :
      (t : ℕ) (rcpt canon name : Bytes) (h : L) (w : W)
      → r.Holds t rcpt canon w
      → r.Holds t rcpt canon (vlu.search h name w).1
  pub group_search_holds :
      (t : ℕ) (rcpt canon name : Bytes) (h : L) (w : W)
      → r.Holds t rcpt canon w
      → r.Holds t rcpt canon (vlu.group_search h name w).1
  pub close_left :
      (t : ℕ) (rcpt canon : Bytes) (h : Option L) (w : W)
      → r.Left t rcpt canon w
      → r.Left t rcpt canon (vlu.close h w)

module _ {W V L : Type 0} (y : Yasl) (config : Config) (vdb : VdbBackend W V) (r : Remembers vdb)
    (vlu : VluBackend W L) (keeps : KeepsMemory r vlu) (vluh : L) (rcpt : Bytes) where
  Found-clock :
      (call : Call) (w v : W) → Found y config call vdb vlu vluh rcpt w v → r.clock v ≡ r.clock w
  Found-clock call w v (inl e) = sym (ap (λ p. r.clock p.1) e) ∙ keeps.search_clock vluh rcpt w
  Found-clock call w v (inr (u, e, f)) =
      sym (ap (λ p. r.clock p.1) f)
      ∙ keeps.group_search_clock vluh rcpt u
      ∙ sym (ap (λ p. r.clock p.1) e)
      ∙ keeps.search_clock vluh rcpt w

  Found-Holds :
      (call : Call) (t : ℕ) (canon : Bytes) (w v : W)
      → Found y config call vdb vlu vluh rcpt w v
      → r.Holds t rcpt canon w
      → r.Holds t rcpt canon v
  Found-Holds call t canon w v (inl e) h =
      subst (λ p. r.Holds t rcpt canon p.1) e (keeps.search_holds t rcpt canon rcpt vluh w h)
  Found-Holds call t canon w v (inr (u, e, f)) h =
      subst (λ p. r.Holds t rcpt canon p.1) f
        (keeps.group_search_holds t rcpt canon rcpt vluh u
          (subst (λ p. r.Holds t rcpt canon p.1) e (keeps.search_holds t rcpt canon rcpt vluh w h)))

  finish-left :
      (call : Call) (vdbh : V) (w : W) (s : Sending) {c : ℕ} {mail : Mail} {w' : W}
      → finish y config call vdb vlu vluh rcpt vdbh w s ≡ exited c (some mail) w'
      → w' ≡ vlu.close (some vluh) (vdb.close (some vdbh) w)
  unfolding finish done
  finish-left call vdbh w crash h = cc
  finish-left call vdbh w (sent code some_mail) h = cc

  -- A run that comes to send a reply leaves it remembered.
  look_up-Left :
      (call : Call) (sender canon : Bytes) (t : ℕ) (w w' : W) {c : ℕ} {mail : Mail}
      → r.Fits t
      → check_from y sender ≡ some canon
      → r.clock w ≡ some t
      → look_up y config call vdb vlu vluh rcpt (some sender) w ≡ exited c (some mail) w'
      → r.Left t rcpt canon w'
  unfolding reply
  look_up-Left call sender canon t w w' fits accepted at_t h =
      let k = look_up-mail y config call vdb vlu vluh rcpt (some sender) w h in
      let same_canon : k.canon ≡ canon = cc (k.given, k.accepted, accepted) in
      let left =
        r.store_leaves t _ rcpt k.canon k.searched k.begun k.asked k.vdbh fits k.opened k.not_recent
          (Found-clock call w k.searched k.found ∙ at_t) in
      let closed = keeps.close_left t rcpt k.canon (some vluh) _ left in
      subst (λ a. r.Left t rcpt a w') same_canon
        (subst (λ v. r.Left t rcpt k.canon v) (sym (finish-left call k.vdbh _ _ k.replied)) closed)

  pub once_per_interval-Remembers :
      (first second : Call) (sender sender' canon : Bytes) (w w' u u' : W) (t now : ℕ) {c c' : ℕ}
      {mail mail' : Mail}
      → r.Fits t
      → check_from y sender ≡ some canon
      → check_from y sender' ≡ some canon
      → r.clock w ≡ some t
      → look_up y config first vdb vlu vluh rcpt (some sender) w ≡ exited c (some mail) w'
      → r.Passes w' u
      → r.clock u ≡ some now
      → ((v begun : W) (h : V)
          → Found y config second vdb vlu vluh rcpt u v
          → vdb.init rcpt v ≡ (some h, begun)
          → now < t + vlu.interval vluh rcpt begun)
      → look_up y config second vdb vlu vluh rcpt (some sender') u ≢ exited c' (some mail') u'
  once_per_interval-Remembers first second sender sender' canon w w' u u' t now fits a a' at_t run
        passes later soon run' =
      let held =
        r.passes_holds t rcpt canon w' u (look_up-Left first sender canon t w w' fits a at_t run)
          passes in
      let k = look_up-mail y config second vdb vlu vluh rcpt (some sender') u run' in
      let same_canon : canon ≡ k.canon = cc (k.given, k.accepted, a') in
      let answer =
        r.holds_recent t now (vlu.interval vluh rcpt k.begun) rcpt canon k.searched k.begun k.vdbh
          (Found-Holds second t canon u k.searched k.found held) k.opened
          (Found-clock second u k.searched k.found ∙ later)
          (soon k.searched k.begun k.vdbh k.found k.opened) in
      cc (answer, same_canon, ap (λ p. p.0) k.not_recent)
