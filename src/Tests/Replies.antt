-- ===== src/Tests/Replies.antt =====
-- A run in which all the checks pass.
use simvacation.Common.{◌≡◌, refl, sym, ap, some, [], ◌∷◌, Bytes, codes}
use simvacation.Main.{exited, main}
use simvacation.Main.Start.{Started, main-mail}
use simvacation.Main.Replies.{mail_for, main-replies}
use simvacation.Reply.Works.{Works}
use simvacation.Tests.Model.{model, split_onto}
use simvacation.Tests.Main.{call, host, system, settings, mail, at_time, stored, first_run}

-- What `main` has gone through in its first run.
abbrev started :
    Started model host call (at_time [] 1000) (exited 0 (some mail) (at_time stored 1000))
started = main-mail model host call (at_time [] 1000) first_run

works : Works system
works = record {
  pipe = refl;
  fork = refl;
  parent_reads = refl;
  parent_moves = refl;
  parent_writes = refl;
  child_writes = refl;
  child_moves = refl;
  child_reads = refl;
}

abbrev line : Bytes
line = codes "/usr/sbin/simsendmail -f x $R"

by_settings : some settings ≡ some started.config
by_settings = started.configured_by

sendmail_line : started.config.core_sendmail ≡ some line
sendmail_line =
    let e : settings ≡ started.config = cc (by_settings) in ap (λ c. c.core_sendmail) (sym e)

words :
    model.yaslsplitargs line
    ≡ some (codes "/usr/sbin/simsendmail" ∷ codes "-f" ∷ codes "x" ∷ codes "$R" ∷ [])
unfolding split_onto
words = refl

main-replies_example :
    main model host call (at_time [] 1000)
    ≡ exited 0
        (some (
          mail_for model started.config call started.vdb started.vlu started.vluh started.rcpt
            (codes "/usr/sbin/simsendmail")
            (codes "-f" ∷ codes "x" ∷ codes "$R" ∷ [])
            started.checked.hdrs
            started.checked.sender
            started.checked.canon
            (started.vdb.store_reply started.checked.vdbh started.checked.canon
              started.checked.asked).1))
        (started.vlu.close (some started.vluh) (
          started.vdb.close
            (some started.checked.vdbh)
            (started.vdb.store_reply started.checked.vdbh started.checked.canon
              started.checked.asked).1))
main-replies_example =
    main-replies model host call (at_time [] 1000) (exited 0 (some mail) (at_time stored 1000)) line
      (codes "/usr/sbin/simsendmail") (codes "-f" ∷ codes "x" ∷ codes "$R" ∷ []) started works
      sendmail_line words
