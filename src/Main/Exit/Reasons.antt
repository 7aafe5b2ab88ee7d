-- ===== src/Main/Exit/Reasons.antt =====
-- Why a run ends with a code, once its lookup is open.
use simvacation.Common.{
  ℕ, ◌≡◌, ◌≢◌, refl, Bool, true, false, not, Option, none, some, Bytes, if◌then◌else◌,
}
use mathlib.Core.Path.{subst}
use simvacation.Yasl.{Yasl}
use simvacation.Config.{Config}
use simvacation.Sender.{check_from}
use simvacation.Headers.{Headers, Reading, headers, no_reply, out_of_fuel, readheaders}
use simvacation.Vdb.{VacResult, ok, tempfail, permfail, Status, status_ok, recent, VdbBackend}
use simvacation.Vlu.{VluBackend}
use simvacation.Reply.{Mail, Sending, crash, sent}
use simvacation.Reply.Delivery.{SendEnds, GoodSending, send_message-Good}
use simvacation.Main.{
  Call, Outcome, crashed, exited, done, quit, finish, reply, unless_recent, with_sender,
  from_sender, with_headers, with_vdb, after_search, group_too, look_up,
}

module _ {W V L : Type 0} (y : Yasl) (config : Config) (call : Call) (vdb : VdbBackend W V)
    (vlu : VluBackend W L) (vluh : L) (rcpt : Bytes) (from : Option Bytes) (w : W) where
  -- The answer for the recipient, or else for the group of that name.
  pub data Searched : VacResult → W → Type 0 where
    user :
        {rc : VacResult} {s : W} → vlu.search vluh rcpt w ≡ (rc, s) → rc ≢ permfail → Searched rc s
    group :
        {rc : VacResult} {u s : W}
        → vlu.search vluh rcpt w ≡ (permfail, u)
        → vlu.group_search vluh rcpt u ≡ (rc, s)
        → Searched rc s

  -- What has been passed: the search and the opening of the database, the reading of the header, and
  -- the tests of the recipient and the sender.
  abbrev pub Opened : V → W → Type 0
  Opened vdbh b = (s : W) × Searched ok s × (vdb.init rcpt s ≡ (some vdbh, b))

  abbrev pub reading : W → Reading
  reading b = readheaders y (vlu.aliases vluh rcpt b) call.garbage call.stdin

  abbrev pub Matched : V → W → Type 0
  Matched vdbh b = Opened vdbh b × ((h : Headers) × (reading b ≡ headers h) × (h.rcpt_match ≡ true))

  abbrev pub Accepted : V → W → Bytes → Type 0
  Accepted vdbh b canon =
      Matched vdbh b
      × ((sender : Bytes) × (from ≡ some sender) × (check_from y sender ≡ some canon))

  -- Each end with its cause: the exit code, and the reply that the run came to send.
  pub data Reason : ℕ → Option Mail → Type 0 where
    failing : {s : W} → Searched tempfail s → Reason 75 none
    nobody : {s : W} → Searched permfail s → Reason 0 none
    unopened : {s b : W} → Searched ok s → vdb.init rcpt s ≡ (none, b) → Reason 0 none
    refused : {vdbh : V} {b : W} → Opened vdbh b → reading b ≡ no_reply → Reason 0 none
    unmatched :
        {vdbh : V} {b : W} {h : Headers}
        → Opened vdbh b
        → reading b ≡ headers h
        → h.rcpt_match ≡ false
        → Reason 0 none
    ignored :
        {vdbh : V} {b : W} {sender : Bytes}
        → Matched vdbh b
        → from ≡ some sender
        → check_from y sender ≡ none
        → Reason 0 none
    repeated :
        {vdbh : V} {b u : W} {canon : Bytes}
        → Accepted vdbh b canon
        → vdb.recent vdbh canon (vlu.interval vluh rcpt b) b ≡ (recent, u)
        → Reason 0 none
    sending :
        {vdbh : V} {b u : W} {canon : Bytes} {c : ℕ} {m : Mail}
        → Accepted vdbh b canon
        → vdb.recent vdbh canon (vlu.interval vluh rcpt b) b ≡ (status_ok, u)
        → SendEnds c m
        → Reason c (some m)

  -- The same of an outcome: nothing is said of a crash.
  abbrev Good : Outcome W → Type 0
  Good (crashed u) = Unit
  Good (exited c mail u) = Reason c mail

  finish-Good :
      (vdbh : V) (b u : W) (canon : Bytes) (s : Sending) (v : W)
      → Accepted vdbh b canon
      → vdb.recent vdbh canon (vlu.interval vluh rcpt b) b ≡ (status_ok, u)
      → GoodSending s
      → Good (finish y config call vdb vlu vluh rcpt vdbh v s)
  unfolding finish done
  finish-Good vdbh b u canon crash v a e h = tt
  finish-Good vdbh b u canon (sent c mail) v a e h = sending a e h

  unless_recent-Good :
      (vdbh : V) (b : W) (hdrs : Headers) (sender canon : Bytes) (s : Status × W)
      → Accepted vdbh b canon
      → vdb.recent vdbh canon (vlu.interval vluh rcpt b) b ≡ s
      → Good (unless_recent y config call vdb vlu vluh rcpt vdbh hdrs sender canon s)
  unfolding unless_recent quit done reply
  unless_recent-Good vdbh b hdrs sender canon (recent, u) a e = repeated a e
  unless_recent-Good vdbh b hdrs sender canon (status_ok, u) a e =
      finish-Good vdbh b u canon _ _ a e (send_message-Good y config _ _ _ _ _ _ _)

  with_sender-Good :
      (vdbh : V) (b : W) (hdrs : Headers) (sender : Bytes) (o : Option Bytes)
      → Matched vdbh b
      → from ≡ some sender
      → check_from y sender ≡ o
      → Good (with_sender y config call vdb vlu vluh rcpt vdbh hdrs sender o b)
  unfolding with_sender quit done
  with_sender-Good vdbh b hdrs sender none m f e = ignored m f e
  with_sender-Good vdbh b hdrs sender (some canon) m f e =
      unless_recent-Good vdbh b hdrs sender canon _ (m, (sender, f, e)) refl

  from_sender-Good :
      (vdbh : V) (b : W) (hdrs : Headers) (o : Option Bytes)
      → Matched vdbh b
      → from ≡ o
      → Good (from_sender y config call vdb vlu vluh rcpt vdbh hdrs o b)
  unfolding from_sender
  from_sender-Good vdbh b hdrs none m f = tt
  from_sender-Good vdbh b hdrs (some sender) m f = with_sender-Good vdbh b hdrs sender _ m f refl

  if_matched-Good :
      (vdbh : V) (b : W) (hdrs : Headers) (t : Bool)
      → Opened vdbh b
      → reading b ≡ headers hdrs
      → hdrs.rcpt_match ≡ t
      → Good (
          if not t
          then quit y config call vdb vlu vluh rcpt 0 (some vdbh) b
          else from_sender y config call vdb vlu vluh rcpt vdbh hdrs from b)
  unfolding quit done
  if_matched-Good vdbh b hdrs true o r e = from_sender-Good vdbh b hdrs from (o, (hdrs, r, e)) refl
  if_matched-Good vdbh b hdrs false o r e = unmatched o r e

  with_headers-Good :
      (vdbh : V) (b : W) (r : Reading)
      → Opened vdbh b
      → reading b ≡ r
      → Good (with_headers y config call vdb vlu vluh rcpt vdbh from r b)
  unfolding with_headers quit done
  with_headers-Good vdbh b (headers hdrs) o e = if_matched-Good vdbh b hdrs hdrs.rcpt_match o e refl
  with_headers-Good vdbh b no_reply o e = refused o e
  with_headers-Good vdbh b out_of_fuel o e = tt

  with_vdb-Good :
      (s : W) (p : Option V × W)
      → Searched ok s
      → vdb.init rcpt s ≡ p
      → Good (with_vdb y config call vdb vlu vluh rcpt from p)
  unfolding with_vdb quit done
  with_vdb-Good s (none, b) f e = unopened f e
  with_vdb-Good s (some vdbh, b) f e = with_headers-Good vdbh b _ (s, f, e) refl

  after_search-Good :
      (p : VacResult × W)
      → Searched p.0 p.1
      → Good (after_search y config call vdb vlu vluh rcpt from p)
  unfolding after_search quit done
  after_search-Good (ok, s) f = with_vdb-Good s _ f refl
  after_search-Good (tempfail, s) f = failing f
  after_search-Good (permfail, s) f = nobody f

  group_too-Searched :
      (p : VacResult × W)
      → vlu.search vluh rcpt w ≡ p
      → Searched
          (group_too y config call vdb vlu vluh rcpt p).0
          (group_too y config call vdb vlu vluh rcpt p).1
  unfolding group_too
  group_too-Searched (ok, s) e = user e (λ q. cc)
  group_too-Searched (tempfail, s) e = user e (λ q. cc)
  group_too-Searched (permfail, s) e = group e refl

  look_up-Good : Good (look_up y config call vdb vlu vluh rcpt from w)
  unfolding look_up
  look_up-Good = after_search-Good _ (group_too-Searched _ refl)

  pub look_up-Reason :
      {v : W} {c : ℕ} {mail : Option Mail}
      → look_up y config call vdb vlu vluh rcpt from w ≡ exited c mail v
      → Reason c mail
  look_up-Reason e = subst (λ out. Good out) e look_up-Good
