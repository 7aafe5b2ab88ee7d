-- ===== src/Main.antt =====
-- simvacation.c, `main`: one run of the program on one message.
pub mod Checks
pub mod Start
pub mod Interval
pub mod Exit
pub mod Ldap
pub mod Replies
pub mod Memory
pub mod Redis
pub mod Lmdb
pub mod Settings
use simvacation.Common.{
  ℕ, Bool, true, false, Option, none, some, List, [], ◌∷◌, Bytes, ◌==◌, ◌||◌, not, if◌then◌else◌,
}
use simvacation.Yasl.{Yasl}
use simvacation.Config.{Config, yaslauto}
use simvacation.Sender.{check_from}
use simvacation.Headers.{Headers, Reading, headers, no_reply, out_of_fuel, readheaders}
use simvacation.Vdb.{
  VacResult, ok, tempfail, permfail, Status, status_ok, recent, VdbBackend, RedisFunctions,
  LmdbFunctions, vdb_backend,
}
use simvacation.Vlu.{VluBackend, LdapFunctions, vlu_backend}
use simvacation.Reply.{System, Mail, Sending, crash, sent, pretty_sender, send_message}

-- What `getopt` returns, call by call: `bad` is `?`.
pub data Opt : Type 0 where
  config_opt from_opt : Bytes → Opt
  debug_opt bad_opt : Opt

-- The variables that the options set.
pub record Options : Type 0 where
  pub config_file : Option Bytes
  pub debug : Bool
  pub from : Option Bytes
  pub retval : ℕ

abbrev pub no_options : Options
no_options = record { config_file = none; debug = false; from = none; retval = 0 }

option : Opt → Options → Options
option (config_opt file) o = record o { config_file = some file }
option (from_opt address) o = record o { from = some address }
option debug_opt o = record o { debug = true }
option bad_opt o = record o { retval = 64 }

unfoldable pub getopts : List Opt → Options → Options
unfolding option
getopts [] o = o
getopts (opt ∷ opts) o = getopts opts (option opt o)

-- One call of the program: its options, the arguments behind them, its input, what the buffer of
-- `readheaders` holds before it is used, and the operating system's answers.
pub record Call : Type 0 where
  pub opts : List Opt
  pub argv : List Bytes
  pub stdin : Bytes
  pub garbage : Bytes
  pub system : System

-- What the build and the host bring: the state outside is `W`, and `V` and `L` are the handles of
-- the database and of the lookup. `read_vacation_config` is `none` where it fails.
pub record Host (W V L : Type 0) : Type 0 where
  pub read_vacation_config : Option Bytes → W → Option Config
  pub blank : V
  pub urcl : Option (RedisFunctions W V)
  pub lmdb : Option (LmdbFunctions W V)
  pub allocated : Option L
  pub ldap : Option (LdapFunctions W L)

-- How a run ends: by a `NULL` that is read, or by `exit`, with what has been given to a child.
pub data Outcome (W : Type 0) : Type 0 where
  crashed : W → Outcome W
  exited : ℕ → Option Mail → W → Outcome W

module _ {W V L : Type 0} where
  -- `done:`
  pub done : ℕ → Option Mail → VdbBackend W V → Option V → VluBackend W L → Option L → W → Outcome W
  done retval mail vdb vdbh vlu vluh w = exited retval mail (vlu.close vluh (vdb.close vdbh w))

module _ {W V L : Type 0} (y : Yasl) (config : Config) (call : Call) (vdb : VdbBackend W V)
    (vlu : VluBackend W L) (vluh : L) (rcpt : Bytes) where
  -- `goto done`, with the lookup open.
  pub quit : ℕ → Option V → W → Outcome W
  unfolding done
  quit retval vdbh w = done retval none vdb vdbh vlu (some vluh) w

  message_or_default : Option Bytes → Bytes
  message_or_default none = yaslauto config.core_default_message
  message_or_default (some vacmsg) = vacmsg

  finish : V → W → Sending → Outcome W
  unfolding done
  finish vdbh w crash = crashed w
  finish vdbh w (sent retval mail) = done retval (some mail) vdb (some vdbh) vlu (some vluh) w

  -- All the checks have passed: the result of `store_reply` is not looked at.
  unfoldable pub reply : V → Headers → Bytes → Bytes → W → Outcome W
  unfolding finish message_or_default
  reply vdbh hdrs from canon_from w =
      let w' = (vdb.store_reply vdbh canon_from w).1 in
      finish vdbh w' (
        send_message y config call.system
          (pretty_sender y config rcpt (vlu.display_name vluh rcpt w')) from canon_from
          (message_or_default (vlu.message vluh rcpt w')) (vlu.subject_prefix vluh rcpt w') hdrs)

  unless_recent : V → Headers → Bytes → Bytes → Status × W → Outcome W
  unfolding reply quit
  unless_recent vdbh hdrs from canon_from (recent, w) = quit 0 (some vdbh) w
  unless_recent vdbh hdrs from canon_from (status_ok, w) = reply vdbh hdrs from canon_from w

  with_sender : V → Headers → Bytes → Option Bytes → W → Outcome W
  unfolding unless_recent quit
  with_sender vdbh hdrs from none w = quit 0 (some vdbh) w
  with_sender vdbh hdrs from (some canon_from) w =
      unless_recent vdbh hdrs from canon_from
        (vdb.recent vdbh canon_from (vlu.interval vluh rcpt w) w)

  -- `canon_from` reads the sender, which is `NULL` without the option.
  pub from_sender : V → Headers → Option Bytes → W → Outcome W
  unfolding with_sender
  from_sender vdbh hdrs none w = crashed w
  from_sender vdbh hdrs (some from) w = with_sender vdbh hdrs from (check_from y from) w

  -- `out_of_fuel` is no result of the code.
  with_headers : V → Option Bytes → Reading → W → Outcome W
  unfolding from_sender quit
  with_headers vdbh from (headers hdrs) w =
      if not hdrs.rcpt_match then quit 0 (some vdbh) w else from_sender vdbh hdrs from w
  with_headers vdbh from no_reply w = quit 0 (some vdbh) w
  with_headers vdbh from out_of_fuel w = crashed w

  with_vdb : Option Bytes → Option V × W → Outcome W
  unfolding with_headers quit
  with_vdb from (none, w) = quit 0 none w
  with_vdb from (some vdbh, w) =
      with_headers vdbh from (readheaders y (vlu.aliases vluh rcpt w) call.garbage call.stdin) w

  -- `rc` after both searches.
  after_search : Option Bytes → VacResult × W → Outcome W
  unfolding with_vdb quit
  after_search from (ok, w) = with_vdb from (vdb.init rcpt w)
  after_search from (tempfail, w) = quit 75 none w
  after_search from (permfail, w) = quit 0 none w

  group_too : VacResult × W → VacResult × W
  group_too (permfail, w) = vlu.group_search vluh rcpt w
  group_too (rc, w) = (rc, w)

  unfoldable pub look_up : Option Bytes → W → Outcome W
  unfolding after_search group_too
  look_up from w = after_search from (group_too (vlu.search vluh rcpt w))

module _ {W V L : Type 0} (y : Yasl) (host : Host W V L) (call : Call) (from : Option Bytes)
    (rcpt : Bytes) where
  with_lookup : Config → VdbBackend W V → VluBackend W L → Option L × W → Outcome W
  unfolding look_up done
  with_lookup config vdb vlu (none, w) = done 75 none vdb none vlu none w
  with_lookup config vdb vlu (some vluh, w) = look_up y config call vdb vlu vluh rcpt from w

  -- Only the database is closed.
  with_vlu : Config → VdbBackend W V → Option (VluBackend W L) → W → Outcome W
  unfolding with_lookup
  with_vlu config vdb none w = exited 75 none (vdb.close none w)
  with_vlu config vdb (some vlu) w = with_lookup config vdb vlu (vlu.init w)

  name_vlu : Config → VdbBackend W V → Option Bytes → W → Outcome W
  unfolding with_vlu
  name_vlu config vdb none w = crashed w
  name_vlu config vdb (some provider) w =
      with_vlu config vdb (vlu_backend host.allocated host.ldap config provider) w

  with_database : Config → Option (VdbBackend W V) → W → Outcome W
  unfolding name_vlu
  with_database config none w = exited 75 none w
  with_database config (some vdb) w = name_vlu config vdb config.core_vlu w

  name_vdb : Config → Option Bytes → W → Outcome W
  unfolding with_database
  name_vdb config none w = crashed w
  name_vdb config (some provider) w =
      with_database config (vdb_backend host.blank host.urcl host.lmdb provider) w

  pub configured : Option Config → W → Outcome W
  unfolding name_vdb
  configured none w = exited 75 none w
  configured (some config) w = name_vdb config config.core_vdb w

module _ {W V L : Type 0} (y : Yasl) (host : Host W V L) where
  with_options : Call → Options → List Bytes → W → Outcome W
  unfolding configured
  with_options call o [] w = exited 64 none w
  with_options call o (rcpt ∷ rest) w =
      if not (o.retval == 0)
      then exited 64 none w
      else configured y host call o.from rcpt (host.read_vacation_config o.config_file w) w

  unfoldable pub main : Call → W → Outcome W
  unfolding with_options getopts
  main call w = with_options call (getopts call.opts no_options) call.argv w
