-- ===== src/Headers.antt =====
-- simvacation.c, `readheaders`, `check_header` and `append_header`: what is kept of a message's
-- header, and the messages that get no reply because of a header.
pub mod Total
pub mod Lines
pub mod Keywords
pub mod Words
pub mod Classify
pub mod Bulk
pub mod Suppress
pub mod Follow
pub mod Recipients
pub mod Keeps
pub mod Values
use simvacation.Common.{
  ℕ, zero, suc, ◌+◌, Bool, true, false, not, ◌&&◌, ◌||◌, Option, none, some, List, [], ◌∷◌, ◌==◌,
  if◌then◌else◌, Bytes, codes, length, get_or, drop,
}
use simvacation.CString.{
  char, cstr, strncasecmp, strchr, isspace, skip_spaces, fgets_line, fgets_rest, fill,
}
use simvacation.Yasl.{Yasl}
use simvacation.Substring.{is_substring}

-- `HEADER_UNKNOWN` and so on.
pub data HeaderState : Type 0 where
  unknown recipient append noreply : HeaderState

-- `struct headers`; `none` is `NULL`.
pub record Headers : Type 0 where
  pub subject : Option Bytes
  pub messageid : Option Bytes
  pub references : Option Bytes
  pub inreplyto : Option Bytes
  pub rcpt_match : Bool

-- The field that `current_hdr` points to.
pub data Field : Type 0 where
  subject_field messageid_field references_field inreplyto_field : Field

abbrev pub get_field : Field → Headers → Option Bytes
get_field subject_field h = h.subject
get_field messageid_field h = h.messageid
get_field references_field h = h.references
get_field inreplyto_field h = h.inreplyto

abbrev pub set_field : Field → Option Bytes → Headers → Headers
set_field subject_field v h = record h { subject = v }
set_field messageid_field v h = record h { messageid = v }
set_field references_field v h = record h { references = v }
set_field inreplyto_field v h = record h { inreplyto = v }

-- The local variables of `readheaders`.
pub record Scan : Type 0 where
  pub h : Headers
  pub state : HeaderState
  pub stripfield : Bool
  pub buf : Bytes
  pub current_hdr : Option Field
  pub rcpt_hdrs : Bytes

-- What a line makes the loop do: go on, leave it by `break`, or return `NULL`.
pub data Verdict : Type 0 where
  go : Scan → Verdict
  stop : Scan → Verdict
  suppress : Verdict

-- `check_header(line, field) == 0`
unfoldable pub check_header : Bytes → Bytes → Bool
check_header line field = strncasecmp field line (length field)

abbrev begin_append : Field → Scan → Scan
begin_append f s = record s { state = append; stripfield = true; current_hdr = some f }

-- `if (!*p) break;`, then the test of the value at `p`.
abbrev pub value_test : Scan → Bytes → Bool → Verdict
value_test s p refused = if char p == 0 then stop s else if refused then suppress else go s

-- The scan of the value begins behind `buf + 15`.
pub auto_submitted : Scan → Verdict
auto_submitted s =
    let p = skip_spaces (drop 16 s.buf) in value_test s p (not (strncasecmp p (codes "no") 2))

pub is_bulk : Bytes → Bool
is_bulk p =
    strncasecmp p (codes "junk") 4
    || strncasecmp p (codes "bulk") 4
    || strncasecmp p (codes "list") 4

precedence_at : Scan → Option ℕ → Verdict
precedence_at s none = go s
precedence_at s (some p) = let v = skip_spaces (drop (suc p) s.buf) in value_test s v (is_bulk v)

pub precedence : Scan → Verdict
unfolding precedence_at is_bulk
precedence s =
    let c = get_or s.buf 10 0 in
    if c == b':' || c == b' ' || c == b'\t' then precedence_at s (strchr s.buf b':') else go s

pub response_suppress : Yasl → Scan → Verdict
response_suppress y s =
    if is_substring y (codes "OOF") (cstr s.buf) false
      || is_substring y (codes "All") (cstr s.buf) false
    then suppress
    else go s

-- The chain of `if (check_header(buf, …) == 0)`.
pub classify : Yasl → Scan → Verdict
classify y s =
    if check_header s.buf (codes "Message-ID:")
    then go (begin_append messageid_field s)
    else if check_header s.buf (codes "References:")
    then go (begin_append references_field s)
    else if check_header s.buf (codes "In-Reply-To:")
    then go (begin_append inreplyto_field s)
    else if check_header s.buf (codes "Auto-Submitted:")
    then auto_submitted (record s { state = noreply })
    else if check_header s.buf (codes "List-")
    then suppress
    else if check_header s.buf (codes "Precedence")
    then precedence (record s { state = noreply })
    else if check_header s.buf (codes "X-Auto-Response-Suppress:")
    then response_suppress y (record s { state = noreply })
    else if check_header s.buf (codes "Cc:")
    then go (record s { state = recipient })
    else if check_header s.buf (codes "To:")
    then go (record s { state = recipient })
    else if check_header s.buf (codes "Subject:")
    then go (begin_append subject_field s)
    else if not (isspace (char s.buf))
    then go (record s { state = unknown })
    else go s

-- `value = index(value, ':'); while (value && *++value && isspace(*value));`
strip_name : Bytes → Option ℕ → Option Bytes
strip_name value none = none
strip_name value (some p) = some (skip_spaces (drop (suc p) value))

-- `yaslcat` returns `NULL` where its source is `NULL`.
cat_value : Yasl → Bytes → Option Bytes → Option Bytes
cat_value y str none = none
cat_value y str (some value) = some (y.yasltrim (y.yaslcat str (cstr value)) (codes "\n"))

or_empty : Option Bytes → Bytes
or_empty none = []
or_empty (some s) = s

unfoldable pub append_header : Yasl → Option Bytes → Bytes → Bool → Option Bytes
unfolding strip_name cat_value or_empty
append_header y str value stripfield =
    cat_value y (or_empty str)
      (if stripfield then strip_name value (strchr value b':') else some value)

append_to : Yasl → Scan → Option Field → Scan
append_to y s none = s
append_to y s (some f) = record s {
  h = set_field f (append_header y (get_field f s.h) s.buf s.stripfield) s.h;
  stripfield = false;
}

-- `switch (state)`. In the state `append` the pointer is set: `none` does not occur.
act_in : Yasl → HeaderState → Scan → Scan
unfolding append_to
act_in y recipient s = record s {
  rcpt_hdrs = y.yaslcatlen (y.yaslcat s.rcpt_hdrs (cstr s.buf)) (codes " ") 1;
}
act_in y append s = append_to y s s.current_hdr
act_in y _ s = s

pub act : Yasl → Scan → Scan
unfolding act_in
act y s = act_in y s.state s

acted : Yasl → Verdict → Verdict
acted y (go s) = go (act y s)
acted y (stop s) = stop s
acted y suppress = suppress

-- The loop's body, on the line in the buffer.
pub header_line : Yasl → Scan → Verdict
unfolding acted
header_line y s = acted y (classify y s)

pub data Loop : Type 0 where
  finished : Scan → Loop
  suppressed : Loop
  exhausted : Loop

abbrev pub after : Verdict → (Scan → Loop) → Loop
after (go s) next = next s
after (stop s) next = finished s
after suppress next = suppressed

-- One round of the loop: its test on what `fgets` has read, its body, and the rounds behind it.
pub header_round : Yasl → Bytes → Scan → (Scan → Loop) → Loop
header_round y line s next =
    let read = record s { buf = fill line s.buf } in
    if length line == 0
    then finished s
    else if char read.buf == b'\n'
    then finished read
    else after (header_line y read) next

-- `while (fgets(buf, sizeof(buf), stdin) && *buf != '\n')`, by fuel.
pub header_loop : Yasl → ℕ → Bytes → Scan → Loop
header_loop y zero stdin s = exhausted
header_loop y (suc fuel) stdin s =
    header_round y (fgets_line 999 stdin) s (header_loop y fuel (fgets_rest 999 stdin))

-- `while (!h->rcpt_match && …) h->rcpt_match = is_substring(…)`
pub any_name : Yasl → Bytes → List Bytes → Bool
any_name y rcpt_hdrs [] = false
any_name y rcpt_hdrs (name ∷ names) =
    is_substring y name rcpt_hdrs true || any_name y rcpt_hdrs names

pub data Reading : Type 0 where
  headers : Headers → Reading
  no_reply : Reading
  out_of_fuel : Reading

pub closing : Yasl → List Bytes → Loop → Reading
closing y names (finished s) = headers (record s.h { rcpt_match = any_name y s.rcpt_hdrs names })
closing y names suppressed = no_reply
closing y names exhausted = out_of_fuel

abbrev pub no_headers : Headers
no_headers = record {
  subject = none;
  messageid = none;
  references = none;
  inreplyto = none;
  rcpt_match = false;
}

-- `garbage` is what the buffer holds before the first line is read.
abbrev pub initial : Bytes → Scan
initial garbage = record {
  h = no_headers;
  state = unknown;
  stripfield = false;
  buf = garbage;
  current_hdr = none;
  rcpt_hdrs = [];
}

-- `no_reply` is the `NULL` of a message that gets no reply.
unfoldable pub readheaders : Yasl → List Bytes → Bytes → Bytes → Reading
unfolding closing header_loop header_round header_line classify auto_submitted precedence
    response_suppress act any_name
readheaders y names garbage stdin =
    closing y names (header_loop y (suc (length stdin)) stdin (initial garbage))
