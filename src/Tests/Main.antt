-- ===== src/Tests/Main.antt =====
-- Whole runs of the program, and the theorems on them at inputs.
use simvacation.Common.{ℕ, ◌≡◌, ◌≢◌, refl, true, none, some, List, [], ◌∷◌, Bytes, codes, arith}
use simvacation.CString.{
  strncasecmp, strcasecmp, strchr, strrchr, strstr, memcmp, tolower, isspace, skip_spaces,
  fgets_line, fgets_rest, fill,
}
use simvacation.CString.Print.{hex, shown}
use simvacation.Config.{Config}
use simvacation.Sender.{check_from}
use simvacation.Substring.{is_substring}
use simvacation.Rabin.{rabin_fingerprint}
use simvacation.Headers.{readheaders, check_header, append_header}
use simvacation.Vdb.{ok, VdbBackend, vdb_backend}
use simvacation.Vdb.Mdb.{Datum}
use simvacation.Vdb.Lmdb.{
  Opening, lmdb_vdb_init, lmdb_vdb_close, lmdb_vdb_key, lmdb_vdb_recent, lmdb_vdb_store_reply,
}
use simvacation.Vlu.{VluBackend, vlu_backend, null_vlu}
use simvacation.Reply.{System, Mail, send_message, pretty_sender}
use simvacation.Main.{from_opt, debug_opt, Call, Host, exited, look_up, main}
use simvacation.Main.Start.{Started, main-mail}
use simvacation.Main.Exit.{Ends, main-Ends}
use simvacation.Main.Interval.{World, KeepsReplies, lmdb_functions, lmdb_backend, once_per_interval}
use simvacation.Tests.Model.{model, split_onto}
use simvacation.Tests.Store.{mdb, store}

abbrev pub settings : Config
settings = record {
  core_vdb = some (codes "lmdb");
  core_vlu = some (codes "null");
  core_domain = some (codes "umich.edu");
  core_sendmail = some (codes "/usr/sbin/simsendmail -f x $R");
  core_default_message = some (codes "away");
  core_subject_prefix = some (codes "Out");
  core_interval = 100;
}

abbrev pub opening : Opening
opening = record {
  path = some (codes "/var/lib/simvacation");
  allocated = true;
  create_rc = 0;
  set_assert_rc = 0;
  set_mapsize_rc = 0;
  open_rc = 0;
}

abbrev Outside : Type 0
Outside = World mdb Unit

abbrev pub host : Host Outside Bytes Unit
host = record {
  read_vacation_config = λ file w. some settings;
  blank = [];
  urcl = none;
  lmdb = some (lmdb_functions model mdb opening);
  allocated = some tt;
  ldap = none;
}

abbrev pub system : System
system = record {
  pipe_works = true;
  fork_works = true;
  parent_close_read = true;
  parent_dup2 = true;
  parent_close_write = true;
  child_close_write = true;
  child_dup2 = true;
  child_close_read = true;
  clock = some 1000;
  pid = 77;
  hostname = codes "mx";
}

abbrev pub call : Call
call = record {
  opts = from_opt (codes "bob@ex.edu") ∷ debug_opt ∷ [];
  argv = codes "al" ∷ [];
  stdin = codes "To: al@umich.edu\nSubject: hi\nMessage-ID: <1>\n\nhello\n";
  garbage = [];
  system = system;
}

abbrev pub at_time : List (Bytes × Datum) → ℕ → Outside
at_time es t = record { env = es; clock = some t; rest = tt }

abbrev pub mail : Mail
mail = record {
  command = some (record {
    binary = codes "/usr/sbin/simsendmail";
    argv = codes "simsendmail" ∷ codes "-f" ∷ codes "x" ∷ codes "bob@ex.edu" ∷ [];
  });
  text =
      codes
        "Message-ID: <3e8_4d@mx>\nFrom: al@umich.edu\nTo: bob@ex.edu\nSubject: Out (Re: hi)\nIn-Reply-To: <1>\nReferences: <1>\nAuto-Submitted: auto-replied\nMIME-Version: 1.0\nContent-Type: text/plain; charset=UTF-8\n\naway\n";
}

abbrev pub stored : List (Bytes × Datum)
stored = (codes "user:al:624065782e60f74c", record { size = 8; value = 1000; address = 0 }) ∷ []

abbrev pub vlu : VluBackend Outside Unit
vlu = null_vlu (some tt) settings

abbrev pub vdb : VdbBackend Outside Bytes
vdb = lmdb_backend model mdb opening

pub first_run : main model host call (at_time [] 1000) ≡ exited 0 (some mail) (at_time stored 1000)
unfolding main readheaders check_header append_header is_substring strncasecmp strchr strrchr strstr
    tolower isspace skip_spaces fgets_line fgets_rest fill check_from memcmp strcasecmp
    lmdb_vdb_init lmdb_vdb_close lmdb_vdb_key lmdb_vdb_recent lmdb_vdb_store_reply rabin_fingerprint
    hex shown vdb_backend vlu_backend lmdb_functions send_message pretty_sender split_onto
first_run = refl

-- The second message within the interval gets no reply.
second_run : main model host call (at_time stored 1099) ≡ exited 0 none (at_time stored 1099)
unfolding main readheaders check_header append_header is_substring strncasecmp strchr strrchr strstr
    tolower isspace skip_spaces fgets_line fgets_rest fill check_from memcmp strcasecmp
    lmdb_vdb_init lmdb_vdb_close lmdb_vdb_key lmdb_vdb_recent lmdb_vdb_store_reply rabin_fingerprint
    hex shown vdb_backend vlu_backend lmdb_functions send_message pretty_sender split_onto
second_run = refl

main-mail_example :
    Started model host call (at_time [] 1000) (exited 0 (some mail) (at_time stored 1000))
main-mail_example = main-mail model host call (at_time [] 1000) first_run

main-Ends_example : Ends model host call (at_time stored 1099) 0 none
main-Ends_example = main-Ends model host call (at_time stored 1099) (at_time stored 1099) second_run

vlu-KeepsReplies : KeepsReplies vlu
unfolding null_vlu
vlu-KeepsReplies = record {
  search_keeps = λ h r w. (refl, refl);
  group_search_keeps = λ h r w. (refl, refl);
  close_keeps = λ h w. refl;
}

pub bob_accepted : check_from model (codes "bob@ex.edu") ≡ some (codes "bob@ex.edu")
unfolding check_from strncasecmp strchr strrchr strstr memcmp tolower
bob_accepted = refl

-- A forwarder has rewritten the same address.
pub forwarded_accepted :
    check_from model (codes "SRS0=gf=fp=ex.edu=bob@fw.edu") ≡ some (codes "bob@ex.edu")
unfolding check_from strncasecmp strchr strrchr strstr memcmp tolower
forwarded_accepted = refl

pub first_look_up :
    look_up model settings call vdb vlu tt
      (codes "al")
      (some (codes "bob@ex.edu"))
      (at_time [] 1000)
    ≡ exited 0 (some mail) (at_time stored 1000)
unfolding look_up readheaders check_header append_header is_substring strncasecmp strchr strrchr
    strstr tolower isspace skip_spaces fgets_line fgets_rest fill check_from memcmp strcasecmp
    lmdb_vdb_init lmdb_vdb_close lmdb_vdb_key lmdb_vdb_recent lmdb_vdb_store_reply rabin_fingerprint
    hex shown null_vlu lmdb_backend lmdb_functions send_message pretty_sender split_onto
first_look_up = refl

bob_stored :
    (lmdb_vdb_store_reply model mdb (codes "al") (codes "bob@ex.edu") (some 1000) []).0 ≡ ok
unfolding lmdb_vdb_store_reply
bob_stored = refl

once_per_interval_example :
    look_up model settings call vdb vlu tt
      (codes "al")
      (some (codes "SRS0=gf=fp=ex.edu=bob@fw.edu"))
      (at_time stored 1099)
    ≢ exited 0 (some mail) (at_time stored 1099)
unfolding null_vlu
once_per_interval_example =
    once_per_interval model mdb store opening settings vlu vlu-KeepsReplies tt (codes "al") call
      call (codes "bob@ex.edu") (codes "SRS0=gf=fp=ex.edu=bob@fw.edu") (codes "bob@ex.edu")
      (at_time [] 1000) (at_time stored 1000) (at_time stored 1099) (at_time stored 1099) 1000 1099
      bob_accepted forwarded_accepted refl first_look_up bob_stored (refl, refl) refl refl
      (λ v found. omega arith)
