-- ===== src/Reply/Delivery.antt =====
-- `send_message` and `pexecv`: text is printed exactly if the result is 0.
use simvacation.Common.{ℕ, ◌≡◌, ◌≢◌, refl, Option, none, some, List, [], ◌∷◌, Bytes}
use simvacation.Yasl.{Yasl}
use simvacation.Config.{Config}
use simvacation.Headers.{Headers}
use simvacation.Vdb.{VacResult, ok, tempfail, permfail}
use simvacation.Reply.{
  System, Mail, Command, Sending, crash, sent, sent_by, run_split, reply_text, send_message,
}

-- The result of `send_message` and the text that it has printed.
pub data SendEnds : ℕ → Mail → Type 0 where
  replied : {m : Mail} → m.text ≢ [] → SendEnds 0 m
  not_taken : {m : Mail} → m.text ≡ [] → SendEnds 75 m

abbrev pub GoodSending : Sending → Type 0
GoodSending crash = Unit
GoodSending (sent c mail) = SendEnds c mail

sent_by-Good :
    (p : VacResult × Option Command) (text : Bytes) → text ≢ [] → GoodSending (sent_by p text)
unfolding sent_by
sent_by-Good (ok, command) text ne = replied ne
sent_by-Good (tempfail, command) text ne = not_taken refl
sent_by-Good (permfail, command) text ne = not_taken refl

run_split-Good :
    (y : Yasl) (o : System) (split : Option (List Bytes)) (text : Bytes)
    → text ≢ []
    → GoodSending (run_split y o split text)
unfolding run_split
run_split-Good y o none text ne = tt
run_split-Good y o (some []) text ne = tt
run_split-Good y o (some (argv0 ∷ args)) text ne = sent_by-Good _ text ne

-- Whatever the system answers, a reply that is sent ends one of the two ways.
pub send_message-Good :
    (y : Yasl) (config : Config) (o : System) (sender rcpt canon_rcpt vmsg subject : Bytes)
    (h : Headers)
    → GoodSending (send_message y config o sender rcpt canon_rcpt vmsg subject h)
unfolding send_message reply_text
send_message-Good y config o sender rcpt canon_rcpt vmsg subject h =
    run_split-Good y o _ _ (λ e. cc)
