-- ===== src/Tests/Runs.antt =====
-- Whole runs of the program with the lookup in LDAP.
use simvacation.Common.{true, ℕ, ◌≡◌, ◌≢◌, ◌⊎◌, inr, refl, some, List, [], ◌∷◌, Bytes, codes, arith}
use simvacation.CString.{
  strncasecmp, strcasecmp, strchr, strrchr, strstr, memcmp, tolower, isspace, skip_spaces,
  fgets_line, fgets_rest, fill,
}
use simvacation.CString.Print.{hex, shown}
use simvacation.CTime.{more_digits, strptime, mktime}
use simvacation.Sender.{check_from}
use simvacation.Substring.{is_substring}
use simvacation.Rabin.{rabin_fingerprint}
use simvacation.Headers.{readheaders, check_header, append_header}
use simvacation.Vdb.{ok, permfail, VdbBackend}
use simvacation.Vdb.Mdb.{Datum}
use simvacation.Vdb.Lmdb.{
  lmdb_vdb_init, lmdb_vdb_close, lmdb_vdb_key, lmdb_vdb_recent, lmdb_vdb_store_reply,
}
use simvacation.Vlu.{VluBackend, null_vlu, put_ldap, vlu_backend}
use simvacation.Vlu.Window.{onvacation_at, ldap_vlu_time, value_true}
use simvacation.Vlu.Ldap.{
  VluLdap, ldap_vlu_onvacation, ldap_vlu_search, ldap_vlu_group_search, ldap_vlu_aliases,
  ldap_vlu_message, ldap_vlu_subject_prefix, ldap_vlu_interval, ldap_vlu_display_name,
  user_settings, group_settings,
}
use simvacation.Vlu.Ldap.Table.{put_back, ldap_functions}
use simvacation.Reply.{Mail, send_message, pretty_sender}
use simvacation.Main.{exited, look_up}
use simvacation.Main.Interval.{World, lmdb_functions, lmdb_backend}
use simvacation.Main.Ldap.Message.{Speaks, message-Found}
use simvacation.Main.Ldap.{ldap_backend, AsUser, AsGroup, Found-ldap}
use simvacation.Main.Ldap.Interval.{slot, clock, slot-IsSlot, once_per_interval-ldap}
use simvacation.Tests.Model.{model, split_onto}
use simvacation.Tests.Store.{mdb, store}
use simvacation.Tests.Directory.{directory, ldap_settings, bound, al, team}
use simvacation.Tests.Ldap.{settings, summer_time}
use simvacation.Tests.Main.{opening, call}

abbrev Outside : Type 0
Outside = World mdb (VluLdap directory)

abbrev at_time : List (Bytes × Datum) → ℕ → VluLdap directory → Outside
at_time es t v = record { env = es; clock = some t; rest = v }

abbrev vlu : VluBackend Outside (Unit {0})
vlu = ldap_backend directory (slot directory mdb) (clock directory mdb) model settings ldap_settings

abbrev vdb : VdbBackend Outside Bytes
vdb = lmdb_backend model mdb opening

-- The structure once the user is found.
abbrev pub away : VluLdap directory
away = user_settings directory settings (record bound { result = some al })

abbrev pub mail : Mail
mail = record {
  command = some (record {
    binary = codes "/usr/sbin/simsendmail";
    argv = codes "simsendmail" ∷ codes "bob@ex.edu" ∷ [];
  });
  text =
      codes
        "Message-ID: <3e8_4d@mx>\nFrom: \"x\" <al@umich.edu>\nTo: bob@ex.edu\nSubject: Out (Re: hi)\nIn-Reply-To: <1>\nReferences: <1>\nAuto-Submitted: auto-replied\nMIME-Version: 1.0\nContent-Type: text/plain; charset=UTF-8\n\nGone\nfishing\n";
}

abbrev stored : List (Bytes × Datum)
stored = (codes "user:al:624065782e60f74c", record { size = 8; value = 1000; address = 0 }) ∷ []

first_look_up :
    look_up model settings call vdb vlu tt
      (codes "al")
      (some (codes "bob@ex.edu"))
      (at_time [] 1000 bound)
    ≡ exited 0 (some mail) (at_time stored 1000 away)
unfolding look_up readheaders check_header append_header is_substring strncasecmp strchr strrchr
    strstr tolower isspace skip_spaces fgets_line fgets_rest fill check_from memcmp strcasecmp
    lmdb_vdb_init lmdb_vdb_close lmdb_vdb_key lmdb_vdb_recent lmdb_vdb_store_reply rabin_fingerprint
    hex shown null_vlu put_ldap put_back ldap_functions ldap_backend ldap_vlu_search
    ldap_vlu_onvacation ldap_vlu_aliases ldap_vlu_message ldap_vlu_subject_prefix ldap_vlu_interval
    ldap_vlu_display_name onvacation_at ldap_vlu_time value_true strptime more_digits mktime
    lmdb_backend lmdb_functions send_message pretty_sender split_onto
first_look_up = refl

-- The group answers in summer, once the search for a user of that name has failed for good.
abbrev away_as_group : VluLdap directory
away_as_group = group_settings directory ldap_settings (record bound { result = some team })

no_such_user :
    vlu.search tt (codes "the.team") (at_time [] summer_time bound)
    ≡ (permfail, at_time [] summer_time bound)
unfolding ldap_backend null_vlu put_ldap put_back ldap_functions ldap_vlu_search
no_such_user = refl

the_team :
    vlu.group_search tt (codes "the.team") (at_time [] summer_time bound)
    ≡ (ok, at_time [] summer_time away_as_group)
unfolding ldap_backend null_vlu put_ldap put_back ldap_functions ldap_vlu_group_search
    ldap_vlu_onvacation onvacation_at ldap_vlu_time value_true strptime more_digits mktime
the_team = refl

Found-ldap_example :
    AsUser directory
      (slot directory mdb)
      (clock directory mdb)
      (slot-IsSlot directory mdb)
      model
      settings
      ldap_settings
      (codes "the.team")
      bound
      (at_time [] summer_time away_as_group)
    ⊎ (((vlu.search tt (codes "the.team") (at_time [] summer_time bound)).0 ≡ permfail)
        × AsGroup directory
            (slot directory mdb)
            (clock directory mdb)
            (slot-IsSlot directory mdb)
            model
            settings
            ldap_settings
            (codes "the.team")
            bound
            (at_time [] summer_time away_as_group))
Found-ldap_example =
    Found-ldap directory (slot directory mdb) (clock directory mdb) (slot-IsSlot directory mdb)
      model settings ldap_settings vdb call (codes "the.team") (at_time [] summer_time bound)
      (at_time [] summer_time away_as_group)
      (inr (at_time [] summer_time bound, no_such_user, the_team))

bob_accepted : check_from model (codes "bob@ex.edu") ≡ some (codes "bob@ex.edu")
unfolding check_from strncasecmp strchr strrchr strstr memcmp tolower
bob_accepted = refl

bob_stored :
    (lmdb_vdb_store_reply model mdb (codes "al") (codes "bob@ex.edu") (some 1000) []).0 ≡ ok
unfolding lmdb_vdb_store_reply
bob_stored = refl

once_per_interval-ldap_example :
    look_up model settings call vdb vlu tt
      (codes "al")
      (some (codes "bob@ex.edu"))
      (at_time stored 1099 bound)
    ≢ exited 0 (some mail) (at_time stored 1099 away)
once_per_interval-ldap_example =
    once_per_interval-ldap directory mdb model settings ldap_settings store opening (codes "al")
      call call (codes "bob@ex.edu") (codes "bob@ex.edu") (codes "bob@ex.edu")
      (at_time [] 1000 bound) (at_time stored 1000 away) (at_time stored 1099 bound)
      (at_time stored 1099 away) 1000 1099 bob_accepted bob_accepted refl first_look_up bob_stored
      (refl, refl) refl refl (omega arith) (omega arith)

message-Found_example :
    Speaks directory
      (slot directory mdb)
      (clock directory mdb)
      (slot-IsSlot directory mdb)
      model
      settings
      ldap_settings
      (codes "the.team")
      (at_time [] summer_time away_as_group)
      (codes "away")
      (codes "text")
    ⊎ (((vlu.search tt (codes "the.team") (at_time [] summer_time bound)).0 ≡ permfail)
        × Speaks directory
            (slot directory mdb)
            (clock directory mdb)
            (slot-IsSlot directory mdb)
            model
            settings
            ldap_settings
            (codes "the.team")
            (at_time [] summer_time away_as_group)
            (codes "a group")
            (codes "group"))
message-Found_example =
    message-Found directory (slot directory mdb) (clock directory mdb) (slot-IsSlot directory mdb)
      model settings ldap_settings vdb call (codes "the.team") (at_time [] summer_time bound)
      (at_time [] summer_time away_as_group)
      (inr (at_time [] summer_time bound, no_such_user, the_team))

-- `ldap` in the configuration puts these functions in place.
ldap_chosen :
    vlu_backend
      (some tt)
      (some (
        ldap_functions directory
          (slot directory mdb)
          model
          true
          true
          settings
          ldap_settings
          (λ w. w.clock)))
      settings
      (codes "LDAP")
    ≡ some vlu
unfolding vlu_backend strcasecmp tolower ldap_backend
ldap_chosen = refl
