-- ===== src/Reply/Works.antt =====
-- `send_message` where the system does what it is asked to.
use simvacation.Common.{◌≡◌, ap, ◌∙◌, true, some, List, ◌∷◌, Bytes, map}
use simvacation.Yasl.{Yasl}
use simvacation.Config.{Config}
use simvacation.Headers.{Headers}
use simvacation.Vdb.{ok}
use simvacation.Reply.{
  System, Command, sent, base_name, child, parent, pexecv, placeholder, reply_text, sent_by,
  run_split, split_line, send_message,
}

-- The calls of `pexecv`, in both processes, succeed.
pub record Works (o : System) : Type 0 where
  pub pipe : o.pipe_works ≡ true
  pub fork : o.fork_works ≡ true
  pub parent_reads : o.parent_close_read ≡ true
  pub parent_moves : o.parent_dup2 ≡ true
  pub parent_writes : o.parent_close_write ≡ true
  pub child_writes : o.child_close_write ≡ true
  pub child_moves : o.child_dup2 ≡ true
  pub child_reads : o.child_close_read ≡ true

-- The command of the configuration, with the sender in place of `$R`.
pub command_for : Yasl → Bytes → Bytes → List Bytes → Command
command_for y rcpt argv0 args = record {
  binary = placeholder rcpt argv0;
  argv = base_name y (placeholder rcpt argv0) ∷ map (placeholder rcpt) args;
}

pexecv-Works :
    (y : Yasl) (o : System) (argv0 : Bytes) (args : List Bytes)
    → Works o
    → pexecv y o argv0 args
      ≡ (ok, some (record { binary = argv0; argv = base_name y argv0 ∷ args }))
unfolding pexecv child parent
pexecv-Works y o argv0 args w = rw (
  w.pipe, w.fork, w.parent_reads, w.parent_moves, w.parent_writes, w.child_writes, w.child_moves,
  w.child_reads,
)

pub send_message-Works :
    (y : Yasl) (config : Config) (o : System)
    (sender rcpt canon_rcpt vmsg subject line argv0 : Bytes) (args : List Bytes) (h : Headers)
    → Works o
    → config.core_sendmail ≡ some line
    → y.yaslsplitargs line ≡ some (argv0 ∷ args)
    → send_message y config o sender rcpt canon_rcpt vmsg subject h
      ≡ sent 0 (record {
        command = some (command_for y rcpt argv0 args);
        text = reply_text o sender canon_rcpt vmsg subject h;
      })
unfolding send_message run_split split_line sent_by command_for
send_message-Works y config o sender rcpt canon_rcpt vmsg subject line argv0 args h w c s =
    let split : split_line y rcpt config.core_sendmail
        ≡ some (placeholder rcpt argv0 ∷ map (placeholder rcpt) args) =
      rw (c, s) in
    ap (λ p. run_split y o p (reply_text o sender canon_rcpt vmsg subject h)) split
    ∙ ap (λ p. sent_by p (reply_text o sender canon_rcpt vmsg subject h))
        (pexecv-Works y o (placeholder rcpt argv0) (map (placeholder rcpt) args) w)
