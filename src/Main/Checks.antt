-- ===== src/Main/Checks.antt =====
-- Every check of `main` stands before a reply: what has gone before, where it comes to send one.
use simvacation.Common.{
  ℕ, ◌≡◌, ◌⊎◌, inl, inr, refl, ◌∙◌, Bool, true, false, not, Option, none, some, Bytes,
  if◌then◌else◌,
}
use simvacation.Yasl.{Yasl}
use simvacation.Config.{Config}
use simvacation.Sender.{check_from}
use simvacation.Headers.{Headers, Reading, headers, no_reply, out_of_fuel, readheaders}
use simvacation.Vdb.{VacResult, ok, tempfail, permfail, Status, status_ok, recent, VdbBackend}
use simvacation.Vlu.{VluBackend}
use simvacation.Reply.{Mail}
use simvacation.Main.{
  Call, Outcome, exited, done, quit, reply, unless_recent, with_sender, from_sender, with_headers,
  with_vdb, after_search, group_too, look_up,
}

module _ {W V L : Type 0} (y : Yasl) (config : Config) (call : Call) (vdb : VdbBackend W V)
    (vlu : VluBackend W L) (vluh : L) (rcpt : Bytes) where
  -- The recipient, or else the group of that name, is found, which leads from `w` to `w'`.
  abbrev pub Found : W → W → Type 0
  Found w w' =
      (vlu.search vluh rcpt w ≡ (ok, w'))
      ⊎ ((u : W) × (vlu.search vluh rcpt w ≡ (permfail, u))
          × (vlu.group_search vluh rcpt u ≡ (ok, w')))

  -- What has been checked for a reply to `from`, in the order of the code.
  pub record Checked (from : Option Bytes) (w : W) (out : Outcome W) : Type 0 where
    pub vdbh : V
    pub hdrs : Headers
    pub sender : Bytes
    pub canon : Bytes
    pub searched : W
    pub begun : W
    pub asked : W
    pub found : Found w searched
    pub opened : vdb.init rcpt searched ≡ (some vdbh, begun)
    pub read : readheaders y (vlu.aliases vluh rcpt begun) call.garbage call.stdin ≡ headers hdrs
    pub matched : hdrs.rcpt_match ≡ true
    pub given : from ≡ some sender
    pub accepted : check_from y sender ≡ some canon
    pub not_recent : vdb.recent vdbh canon (vlu.interval vluh rcpt begun) begun ≡ (status_ok, asked)
    pub replied : reply y config call vdb vlu vluh rcpt vdbh hdrs sender canon asked ≡ out

  group_too-Found :
      (w searched : W) (p : VacResult × W)
      → vlu.search vluh rcpt w ≡ p
      → group_too y config call vdb vlu vluh rcpt p ≡ (ok, searched)
      → Found w searched
  unfolding group_too
  group_too-Found w searched (ok, u) e h = inl (e ∙ h)
  group_too-Found w searched (tempfail, u) e h = inl (e ∙ h)
  group_too-Found w searched (permfail, u) e h = inr (u, e, h)

  module _ {c : ℕ} {mail : Mail} {w' : W} where
    unless_recent-mail :
        (vdbh : V) (hdrs : Headers) (sender canon : Bytes) (s : Status × W)
        → unless_recent y config call vdb vlu vluh rcpt vdbh hdrs sender canon s
          ≡ exited c (some mail) w'
        → (asked : W) × (s ≡ (status_ok, asked))
          × (reply y config call vdb vlu vluh rcpt vdbh hdrs sender canon asked
              ≡ exited c (some mail) w')
    unfolding unless_recent quit done
    unless_recent-mail vdbh hdrs sender canon (recent, w) h = cc
    unless_recent-mail vdbh hdrs sender canon (status_ok, w) h = (w, refl, h)

    with_sender-mail :
        (vdbh : V) (hdrs : Headers) (sender : Bytes) (o : Option Bytes) (w : W)
        → with_sender y config call vdb vlu vluh rcpt vdbh hdrs sender o w ≡ exited c (some mail) w'
        → (canon : Bytes) × (o ≡ some canon)
          × (unless_recent y config call vdb vlu vluh rcpt vdbh hdrs sender canon
                (vdb.recent vdbh canon (vlu.interval vluh rcpt w) w)
              ≡ exited c (some mail) w')
    unfolding with_sender quit done
    with_sender-mail vdbh hdrs sender none w h = cc
    with_sender-mail vdbh hdrs sender (some canon) w h = (canon, refl, h)

    from_sender-mail :
        (vdbh : V) (hdrs : Headers) (o : Option Bytes) (w : W)
        → from_sender y config call vdb vlu vluh rcpt vdbh hdrs o w ≡ exited c (some mail) w'
        → (sender : Bytes) × (o ≡ some sender)
          × (with_sender y config call vdb vlu vluh rcpt vdbh hdrs sender (check_from y sender) w
              ≡ exited c (some mail) w')
    unfolding from_sender
    from_sender-mail vdbh hdrs none w h = cc
    from_sender-mail vdbh hdrs (some sender) w h = (sender, refl, h)

    if-mail :
        (b : Bool) (vdbh : V) (w : W) (next : Outcome W)
        → (if not b then quit y config call vdb vlu vluh rcpt 0 (some vdbh) w else next)
          ≡ exited c (some mail) w'
        → (b ≡ true) × (next ≡ exited c (some mail) w')
    unfolding quit done
    if-mail true vdbh w next h = (refl, h)
    if-mail false vdbh w next h = cc

    with_headers-mail :
        (vdbh : V) (from : Option Bytes) (r : Reading) (w : W)
        → with_headers y config call vdb vlu vluh rcpt vdbh from r w ≡ exited c (some mail) w'
        → (hdrs : Headers) × (r ≡ headers hdrs)
          × (hdrs.rcpt_match ≡ true)
          × (from_sender y config call vdb vlu vluh rcpt vdbh hdrs from w ≡ exited c (some mail) w')
    unfolding with_headers quit done
    with_headers-mail vdbh from (headers hdrs) w h =
        let (m, k) = if-mail hdrs.rcpt_match vdbh w _ h in (hdrs, refl, m, k)
    with_headers-mail vdbh from no_reply w h = cc
    with_headers-mail vdbh from out_of_fuel w h = cc

    with_vdb-mail :
        (from : Option Bytes) (p : Option V × W)
        → with_vdb y config call vdb vlu vluh rcpt from p ≡ exited c (some mail) w'
        → (vdbh : V) × (begun : W) × (p ≡ (some vdbh, begun))
          × (with_headers y config call vdb vlu vluh rcpt vdbh from
                (readheaders y (vlu.aliases vluh rcpt begun) call.garbage call.stdin)
                begun
              ≡ exited c (some mail) w')
    unfolding with_vdb quit done
    with_vdb-mail from (none, w) h = cc
    with_vdb-mail from (some vdbh, w) h = (vdbh, w, refl, h)

    after_search-mail :
        (from : Option Bytes) (p : VacResult × W)
        → after_search y config call vdb vlu vluh rcpt from p ≡ exited c (some mail) w'
        → (searched : W) × (p ≡ (ok, searched))
          × (with_vdb y config call vdb vlu vluh rcpt from (vdb.init rcpt searched)
              ≡ exited c (some mail) w')
    unfolding after_search quit done
    after_search-mail from (ok, w) h = (w, refl, h)
    after_search-mail from (tempfail, w) h = cc
    after_search-mail from (permfail, w) h = cc

    -- A run comes to send a reply only if the recipient is found, the database opens, the message
    -- gets a reply and names the recipient, there is a sender, it is accepted, and the database has no
    -- recent reply to it; the reply is what follows from there.
    pub look_up-mail :
        (from : Option Bytes) (w : W)
        → look_up y config call vdb vlu vluh rcpt from w ≡ exited c (some mail) w'
        → Checked from w (exited c (some mail) w')
    unfolding look_up
    look_up-mail from w h =
        let (searched, a, h) = after_search-mail from _ h in
        let (vdbh, begun, b, h) = with_vdb-mail from _ h in
        let (hdrs, r, m, h) = with_headers-mail vdbh from _ begun h in
        let (sender, g, h) = from_sender-mail vdbh hdrs from begun h in
        let (canon, k, h) = with_sender-mail vdbh hdrs sender _ begun h in
        let (asked, n, h) = unless_recent-mail vdbh hdrs sender canon _ h in
        record {
          vdbh = vdbh;
          hdrs = hdrs;
          sender = sender;
          canon = canon;
          searched = searched;
          begun = begun;
          asked = asked;
          found = group_too-Found w searched _ refl a;
          opened = b;
          read = r;
          matched = m;
          given = g;
          accepted = k;
          not_recent = n;
          replied = h;
        }
