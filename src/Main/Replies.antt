-- ===== src/Main/Replies.antt =====
-- A run in which all the checks pass replies.
use simvacation.Common.{
  ◌≡◌, inl, inr, refl, sym, ap, ◌∙◌, not, Option, none, some, List, ◌∷◌, Bytes, ◌==◌, if◌then◌else◌,
}
use simvacation.Yasl.{Yasl}
use simvacation.Config.{Config, yaslauto}
use simvacation.Vdb.{ok, VdbBackend}
use simvacation.Vlu.{VluBackend}
use simvacation.Reply.{Mail, reply_text, send_message, pretty_sender}
use simvacation.Headers.{Headers}
use simvacation.Reply.Works.{Works, command_for, send_message-Works}
use simvacation.Main.{
  Call, no_options, getopts, Host, Outcome, exited, done, finish, quit, message_or_default, reply,
  unless_recent, with_sender, from_sender, with_headers, with_vdb, after_search, group_too, look_up,
  with_lookup, with_vlu, name_vlu, with_database, name_vdb, configured, with_options, main,
}
use simvacation.Main.Checks.{Found, Checked}
use simvacation.Main.Start.{Started}

-- The message of the lookup, or the default one.
abbrev message_for : Config → Option Bytes → Bytes
message_for config none = yaslauto config.core_default_message
message_for config (some vacmsg) = vacmsg

module _ {W V L : Type 0} (y : Yasl) (config : Config) (call : Call) (vdb : VdbBackend W V)
    (vlu : VluBackend W L) (vluh : L) (rcpt : Bytes) where
  Found-group_too :
      (w searched : W)
      → Found y config call vdb vlu vluh rcpt w searched
      → group_too y config call vdb vlu vluh rcpt (vlu.search vluh rcpt w) ≡ (ok, searched)
  unfolding group_too
  Found-group_too w searched (inl e) = rw e refl
  Found-group_too w searched (inr (u, e, f)) = rw e f

  look_up-Checked :
      (from : Option Bytes) (w : W) (out : Outcome W)
      → Checked y config call vdb vlu vluh rcpt from w out
      → look_up y config call vdb vlu vluh rcpt from w ≡ out
  unfolding look_up after_search with_vdb with_headers from_sender with_sender unless_recent
  look_up-Checked from w out k =
      ap (after_search y config call vdb vlu vluh rcpt from) (Found-group_too w k.searched k.found)
      ∙ ap (with_vdb y config call vdb vlu vluh rcpt from) k.opened
      ∙ ap (λ r. with_headers y config call vdb vlu vluh rcpt k.vdbh from r k.begun) k.read
      ∙ ap
          (λ b.
            if not b
            then quit y config call vdb vlu vluh rcpt 0 (some k.vdbh) k.begun
            else from_sender y config call vdb vlu vluh rcpt k.vdbh k.hdrs from k.begun)
          k.matched
      ∙ ap (λ f. from_sender y config call vdb vlu vluh rcpt k.vdbh k.hdrs f k.begun) k.given
      ∙ ap (λ o. with_sender y config call vdb vlu vluh rcpt k.vdbh k.hdrs k.sender o k.begun)
          k.accepted
      ∙ ap (unless_recent y config call vdb vlu vluh rcpt k.vdbh k.hdrs k.sender k.canon)
          k.not_recent
      ∙ k.replied

  message_or_default_lem :
      (o : Option Bytes)
      → message_or_default y config call vdb vlu vluh rcpt o ≡ message_for config o
  unfolding message_or_default
  message_or_default_lem none = refl
  message_or_default_lem (some vacmsg) = refl

  -- The state in which the reply is stored, and the mail that is then sent.
  abbrev pub stored : V → Bytes → W → W
  stored vdbh canon w = (vdb.store_reply vdbh canon w).1

  pub mail_for : Bytes → List Bytes → Headers → Bytes → Bytes → W → Mail
  mail_for argv0 args hdrs sender canon w = record {
    command = some (command_for y sender argv0 args);
    text =
        reply_text call.system (pretty_sender y config rcpt (vlu.display_name vluh rcpt w)) canon
          (message_for config (vlu.message vluh rcpt w)) (vlu.subject_prefix vluh rcpt w) hdrs;
  }

  reply-Works :
      (vdbh : V) (hdrs : Headers) (sender canon line argv0 : Bytes) (args : List Bytes) (w : W)
      → Works call.system
      → config.core_sendmail ≡ some line
      → y.yaslsplitargs line ≡ some (argv0 ∷ args)
      → reply y config call vdb vlu vluh rcpt vdbh hdrs sender canon w
        ≡ exited 0
            (some (mail_for argv0 args hdrs sender canon (stored vdbh canon w)))
            (vlu.close (some vluh) (vdb.close (some vdbh) (stored vdbh canon w)))
  unfolding reply finish done mail_for
  reply-Works vdbh hdrs sender canon line argv0 args w works c split =
      let w' = stored vdbh canon w in
      let name = pretty_sender y config rcpt (vlu.display_name vluh rcpt w') in
      let prefix = vlu.subject_prefix vluh rcpt w' in
      ap
        (λ m.
          finish y config call vdb vlu vluh rcpt vdbh w'
            (send_message y config call.system name sender canon m prefix hdrs))
        (message_or_default_lem (vlu.message vluh rcpt w'))
      ∙ ap (finish y config call vdb vlu vluh rcpt vdbh w') (
          send_message-Works y config call.system name sender canon _ prefix line argv0 args hdrs
            works c split)

module _ {W V L : Type 0} (y : Yasl) (host : Host W V L) (call : Call) where
  -- Where all the checks of `main` have passed, it ends as the reply does that it comes to.
  main-Started : (w : W) (out : Outcome W) → Started y host call w out → main y host call w ≡ out
  unfolding main with_options configured name_vdb with_database name_vlu with_vlu with_lookup
  main-Started w out s =
      let o = getopts call.opts no_options in
      ap (λ argv. with_options y host call o argv w) s.called
      ∙ ap
          (λ b.
            if not (b == 0)
            then exited 64 none w
            else configured y host call o.from s.rcpt (host.read_vacation_config o.config_file w) w)
          s.options
      ∙ ap (λ c. configured y host call o.from s.rcpt c w) s.configured_by
      ∙ ap (λ n. name_vdb y host call o.from s.rcpt s.config n w) s.names_vdb
      ∙ ap (λ v. with_database y host call o.from s.rcpt s.config v w) s.has_vdb
      ∙ ap (λ n. name_vlu y host call o.from s.rcpt s.config s.vdb n w) s.names_vlu
      ∙ ap (λ v. with_vlu y host call o.from s.rcpt s.config s.vdb v w) s.has_vlu
      ∙ ap (λ p. with_lookup y host call o.from s.rcpt s.config s.vdb s.vlu p) s.inits
      ∙ look_up-Checked y s.config call s.vdb s.vlu s.vluh s.rcpt o.from s.ready out s.checked

  -- A message that passes all the checks is replied to: where the system does what it is asked and the
  -- sending command splits into words, `main` ends with 0, and the command, with the sender in place of
  -- `$R`, has been given the reply to print. The reply is stored before that; all is closed after it.
  pub main-replies :
      (w : W) (out : Outcome W) (line argv0 : Bytes) (args : List Bytes)
      (s : Started y host call w out)
      → Works call.system
      → s.config.core_sendmail ≡ some line
      → y.yaslsplitargs line ≡ some (argv0 ∷ args)
      → main y host call w
        ≡ exited 0
            (some (
              mail_for y s.config call s.vdb s.vlu s.vluh s.rcpt argv0 args s.checked.hdrs
                s.checked.sender s.checked.canon
                (s.vdb.store_reply s.checked.vdbh s.checked.canon s.checked.asked).1))
            (s.vlu.close (some s.vluh) (
              s.vdb.close
                (some s.checked.vdbh)
                (s.vdb.store_reply s.checked.vdbh s.checked.canon s.checked.asked).1))
  main-replies w out line argv0 args s works c split =
      let k = s.checked in
      main-Started w out s
      ∙ sym k.replied
      ∙ reply-Works y s.config call s.vdb s.vlu s.vluh s.rcpt k.vdbh k.hdrs k.sender k.canon line
          argv0 args k.asked works c split
