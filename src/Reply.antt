-- ===== src/Reply.antt =====
-- The reply: vutil.c's `pexecv`, and simvacation.c's `pretty_sender` and `send_message`.
pub mod Works
pub mod Delivery
pub mod Lines
pub mod OneLine
use simvacation.Common.{
  ℕ, suc, ◌-◌, ◌^◌, Bool, true, false, not, ◌&&◌, Option, none, some, List, [], ◌∷◌, ◌++◌, map,
  ◌==◌, ltb, if◌then◌else◌, Bytes, codes, length, pos, negsuc,
}
use mathlib.Core.Option
use simvacation.CString.{strcasecmp, strrchr, memcmp}
use simvacation.CString.Print.{hex, shown}
use simvacation.Yasl.{Yasl}
use simvacation.Config.{Config}
use simvacation.Headers.{Headers, check_header}
use simvacation.Vdb.{VacResult, ok, tempfail}

-- What the operating system answers: whether a call succeeds, the clock (`none` for -1), the
-- process and the host.
pub record System : Type 0 where
  pub pipe_works : Bool
  pub fork_works : Bool
  pub parent_close_read : Bool
  pub parent_dup2 : Bool
  pub parent_close_write : Bool
  pub child_close_write : Bool
  pub child_dup2 : Bool
  pub child_close_read : Bool
  pub clock : Option ℕ
  pub pid : ℕ
  pub hostname : Bytes

-- The arguments of `execv`.
pub record Command : Type 0 where
  pub binary : Bytes
  pub argv : List Bytes

-- What a reply is given to: the command that the child runs, if it comes to that, and the text that
-- is printed to it.
pub record Mail : Type 0 where
  pub command : Option Command
  pub text : Bytes

-- The name behind the last `/`.
base_at : Yasl → Bytes → Option ℕ → Bytes
base_at y s none = s
base_at y s (some p) = y.yaslrange s (pos (suc p)) (negsuc 0)

base_name : Yasl → Bytes → Bytes
unfolding base_at
base_name y s = base_at y s (strrchr s b'/')

child : System → Command → Option Command
child o c =
    if not o.child_close_write
    then none
    else if not o.child_dup2
    then none
    else if not o.child_close_read
    then none
    else some c

parent : System → VacResult
parent o =
    if not o.parent_close_read
    then tempfail
    else if not o.parent_dup2
    then tempfail
    else if not o.parent_close_write
    then tempfail
    else ok

-- On the arguments `argv0 ∷ args`; an empty list, which begins with `NULL`, crashes in `strrchr`.
pub pexecv : Yasl → System → Bytes → List Bytes → VacResult × Option Command
unfolding base_name child parent
pexecv y o argv0 args =
    let command : Command = record { binary = argv0; argv = base_name y argv0 ∷ args } in
    if not o.pipe_works
    then (tempfail, none)
    else if not o.fork_works
    then (tempfail, none)
    else (parent o, child o command)

unnamed : Yasl → Option Bytes → Bytes → Bytes
unnamed y domain sender = y.yaslcatprintf [] (sender ++ (codes "@" ++ shown domain))

pretty_at : Yasl → Option Bytes → Bytes → Option Bytes → Bytes
unfolding unnamed
pretty_at y domain sender none = unnamed y domain sender
pretty_at y domain sender (some name) =
    if not (strcasecmp name sender)
    then y.yaslcatprintf [] (
        codes "\""
        ++ (name ++ (codes "\" <" ++ (sender ++ (codes "@" ++ (shown domain ++ codes ">"))))))
    else unnamed y domain sender

unfoldable pub pretty_sender : Yasl → Config → Bytes → Option Bytes → Bytes
unfolding pretty_at
pretty_sender y config sender sender_name = pretty_at y config.core_domain sender sender_name

-- `yasllen(s)`, 0 for `NULL`
abbrev pub yasllen : Option Bytes → ℕ
yasllen none = 0
yasllen (some s) = length s

pub subject_suffix : Option Bytes → Bytes
subject_suffix none = []
subject_suffix (some s) =
    if ltb 0 (length s)
    then (if not (check_header s (codes "Re:"))
        then codes " (Re: " ++ (s ++ codes ")")
        else codes " (" ++ (s ++ codes ")"))
    else []

pub in_reply_to : Headers → Bytes
in_reply_to h =
    if ltb 0 (yasllen h.messageid)
    then codes "In-Reply-To: " ++ (shown h.messageid ++ codes "\n")
    else []

pub references_line : Headers → Bytes
references_line h =
    if ltb 0 (yasllen h.references)
    then codes "References: "
      ++ (shown h.references ++ (codes " " ++ (shown h.messageid ++ codes "\n")))
    else if ltb 0 (yasllen h.inreplyto)
    then codes "References: "
      ++ (shown h.inreplyto ++ (codes " " ++ (shown h.messageid ++ codes "\n")))
    else if ltb 0 (yasllen h.messageid)
    then codes "References: " ++ (shown h.messageid ++ codes "\n")
    else []

-- `(unsigned long long)time(NULL)`
abbrev pub unsigned_time : Option ℕ → ℕ
unsigned_time none = 2 ^ 64 - 1
unsigned_time (some t) = t

-- The local part and the host of the new `Message-ID`.
pub message_id : System → Bytes
message_id o =
    hex (unsigned_time o.clock) ++ (codes "_" ++ (hex o.pid ++ (codes "@" ++ o.hostname)))

-- All that is printed, in this order.
pub reply_text : System → Bytes → Bytes → Bytes → Bytes → Headers → Bytes
unfolding message_id subject_suffix in_reply_to references_line
reply_text o sender canon_rcpt vmsg subject h =
    codes "Message-ID: <"
    ++ (message_id o
        ++ (codes ">\n"
            ++ (codes "From: "
                ++ (sender
                    ++ (codes "\n"
                        ++ (codes "To: "
                            ++ (canon_rcpt
                                ++ (codes "\n"
                                    ++ (codes "Subject: "
                                        ++ (subject
                                            ++ (subject_suffix h.subject
                                                ++ (codes "\n"
                                                    ++ (in_reply_to h
                                                        ++ (references_line h
                                                            ++ (codes
                                                            "Auto-Submitted: auto-replied\n"
                                                            ++ (codes "MIME-Version: 1.0\n"
                                                            ++ (codes
                                                            "Content-Type: text/plain; charset=UTF-8\n"
                                                            ++ (codes "\n"
                                                            ++ (vmsg
                                                            ++ codes "\n")))))))))))))))))))

-- `if ((yasllen(split[ i ]) == 2) && (memcmp(split[ i ], "$R", 2) == 0)) split[ i ] = rcpt;`
pub placeholder : Bytes → Bytes → Bytes
placeholder rcpt arg = if length arg == 2 && memcmp (codes "$R") arg then rcpt else arg

pub data Sending : Type 0 where
  crash : Sending
  sent : ℕ → Mail → Sending

sent_by : VacResult × Option Command → Bytes → Sending
sent_by (ok, command) text = sent 0 (record { command = command; text = text })
sent_by (_, command) text = sent 75 (record { command = command; text = [] })

-- The command line that could not be split, and one of no words, make the code run into `NULL`.
run_split : Yasl → System → Option (List Bytes) → Bytes → Sending
unfolding sent_by
run_split y o none text = crash
run_split y o (some []) text = crash
run_split y o (some (argv0 ∷ args)) text = sent_by (pexecv y o argv0 args) text

split_line : Yasl → Bytes → Option Bytes → Option (List Bytes)
split_line y rcpt none = none
split_line y rcpt (some line) = Option.map (map (placeholder rcpt)) (y.yaslsplitargs line)

unfoldable pub send_message :
    Yasl → Config → System → Bytes → Bytes → Bytes → Bytes → Bytes → Headers → Sending
unfolding run_split split_line placeholder pexecv reply_text
send_message y config o sender rcpt canon_rcpt vmsg subject h =
    run_split y o (split_line y rcpt config.core_sendmail)
      (reply_text o sender canon_rcpt vmsg subject h)
