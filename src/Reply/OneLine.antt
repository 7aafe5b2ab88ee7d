-- ===== src/Reply/OneLine.antt =====
-- `send_message`: the lines of the reply's header have no newline in them.
use simvacation.Common.{
  ◌≡◌, Bool, true, false, not, Option, none, some, List, ◌++◌, Bytes, codes, All, All-append,
  length, ltb, if◌then◌else◌, arith,
}
use simvacation.CString.Print.{hex, hex-OneLine, shown}
use simvacation.CString.Ends.{OneLine}
use simvacation.Yasl.{Yasl}
use simvacation.Headers.{Headers, headers, readheaders, check_header}
use simvacation.Headers.Lines.{message}
use simvacation.Headers.Values.{OneLineValue, OneLineValues, readheaders-OneLineValues}
use simvacation.Reply.{System, yasllen, subject_suffix, message_id, unsigned_time, reply_text}
use simvacation.Reply.Lines.{parents, optional_line, references_for, reply_lines, reply_text-lines}

join : (s t : Bytes) → OneLine s → OneLine t → OneLine (s ++ t)
join s t h k = All-append _ s t h k

shown-OneLine : (o : Option Bytes) → OneLineValue o → OneLine (shown o)
unfolding shown
shown-OneLine none h = omega arith
shown-OneLine (some s) h = h

if-OneLine : (b : Bool) (s t : Bytes) → OneLine s → OneLine t → OneLine (if b then s else t)
if-OneLine true s t h k = h
if-OneLine false s t h k = k

subject_suffix-OneLine : (o : Option Bytes) → OneLineValue o → OneLine (subject_suffix o)
unfolding subject_suffix
subject_suffix-OneLine none h = tt
subject_suffix-OneLine (some s) h =
    if-OneLine (ltb 0 (length s)) _ _
      (if-OneLine (not (check_header s (codes "Re:"))) _ _
        (join (codes " (Re: ") _ (omega arith) (join s (codes ")") h (omega arith)))
        (join (codes " (") _ (omega arith) (join s (codes ")") h (omega arith))))
      tt

message_id-OneLine : (o : System) → OneLine o.hostname → OneLine (message_id o)
unfolding message_id
message_id-OneLine o h =
    let host = join (codes "@") o.hostname (omega arith) h in
    let process = join (hex o.pid) _ (hex-OneLine o.pid) host in
    join (hex (unsigned_time o.clock)) _ (hex-OneLine (unsigned_time o.clock))
      (join (codes "_") _ (omega arith) process)

optional_line-OneLine : (b : Bool) (l : Bytes) → OneLine l → All OneLine (optional_line b l)
optional_line-OneLine true l h = (h, tt)
optional_line-OneLine false l h = tt

if-OneLineValue :
    (b : Bool) (s t : Option Bytes)
    → OneLineValue s
    → OneLineValue t
    → OneLineValue (if b then s else t)
if-OneLineValue true s t h k = h
if-OneLineValue false s t h k = k

references_for-OneLine :
    (p m : Option Bytes) → OneLineValue p → OneLineValue m → All OneLine (references_for p m)
references_for-OneLine none m h k =
    optional_line-OneLine (ltb 0 (yasllen m)) _
      (join (codes "References: ") _ (omega arith) (shown-OneLine m k))
references_for-OneLine (some p) m h k = (
  join (codes "References: ") _ (omega arith)
      (join p _ h (join (codes " ") _ (omega arith) (shown-OneLine m k))),
  tt,
)

reply_lines-OneLine :
    (o : System) (sender canon_rcpt subject : Bytes) (h : Headers)
    → OneLine o.hostname
    → OneLine sender
    → OneLine canon_rcpt
    → OneLine subject
    → OneLineValues h
    → All OneLine (reply_lines o sender canon_rcpt subject h)
reply_lines-OneLine o sender canon_rcpt subject h a b c d k =
    let id : OneLine (message_id o ++ codes ">") =
      join (message_id o) (codes ">") (message_id-OneLine o a) (omega arith) in
    let parent : OneLineValue (parents h) =
      if-OneLineValue (ltb 0 (yasllen h.references)) _ _ k.in_references
        (if-OneLineValue (ltb 0 (yasllen h.inreplyto)) _ _ k.in_inreplyto tt) in
    let answered =
      optional_line-OneLine (ltb 0 (yasllen h.messageid)) _
        (join (codes "In-Reply-To: ") _ (omega arith) (shown-OneLine h.messageid k.in_messageid)) in
    let references = references_for-OneLine (parents h) h.messageid parent k.in_messageid in
    let suffix = join subject _ d (subject_suffix-OneLine h.subject k.in_subject) in
    (
      join (codes "Message-ID: <") _ (omega arith) id,
      (
        join (codes "From: ") sender (omega arith) b,
        (
          join (codes "To: ") canon_rcpt (omega arith) c,
          (
            join (codes "Subject: ") _ (omega arith) suffix,
            All-append OneLine _ _ answered
                (All-append OneLine _ _ references (omega arith, (omega arith, (omega arith, tt)))),
          ),
        ),
      ),
    )

-- Whatever message is replied to: the reply is the header of exactly these lines, an empty line, and
-- the vacation message. None of the lines has a newline, so that nothing in the message can add a
-- line to the reply's header; the sender's address, the recipient's, the subject's prefix and the
-- name of the host have no newline either.
pub reply_text-readheaders :
    (y : Yasl) (names : List Bytes) (garbage stdin : Bytes) (o : System)
    (sender canon_rcpt vmsg subject : Bytes) {h : Headers}
    → readheaders y names garbage stdin ≡ headers h
    → OneLine o.hostname
    → OneLine sender
    → OneLine canon_rcpt
    → OneLine subject
    → (reply_text o sender canon_rcpt vmsg subject h
        ≡ message (reply_lines o sender canon_rcpt subject h) (vmsg ++ codes "\n"))
      × All OneLine (reply_lines o sender canon_rcpt subject h)
reply_text-readheaders y names garbage stdin o sender canon_rcpt vmsg subject {h = h} e a b c d = (
  reply_text-lines o sender canon_rcpt vmsg subject h,
  reply_lines-OneLine o sender canon_rcpt subject h a b c d
      (readheaders-OneLineValues y names garbage stdin e),
)
