-- ===== src/Headers/Values.antt =====
-- The values that are kept of a message's header: no newline is in them, whatever the message.
use simvacation.Common.{
  ℕ, zero, suc, ◌≡◌, sym, Bool, true, false, Option, none, some, List, Bytes, length, ◌==◌,
  if◌then◌else◌,
}
use mathlib.Core.Path.{subst}
use simvacation.CString.{cstr, char, strchr, fgets_line, fgets_rest, fill}
use simvacation.CString.Ends.{
  OneLine, Ended, EndedBehind, fgets_line-Ended, fill-Ended, strchr-EndedBehind, skip_spaces-Ended,
  append-Ended,
}
use simvacation.Yasl.{Yasl}
use simvacation.Yasl.Trim.{trim-OneLine}
use simvacation.Headers.Keeps.{Keeps, keeps_go, keeps_stop, keeps_suppress, classify-Keeps}
use simvacation.Headers.{
  Headers, Field, subject_field, messageid_field, references_field, inreplyto_field, get_field,
  set_field, HeaderState, unknown, recipient, append, noreply, Scan, Verdict, strip_name, cat_value,
  or_empty, append_header, append_to, act_in, act, acted, header_line, Loop, finished, suppressed,
  exhausted, after, header_round, header_loop, Reading, headers, closing, initial, readheaders,
}

abbrev pub OneLineValue : Option Bytes → Type 0
OneLineValue none = Unit
OneLineValue (some s) = OneLine s

-- None of the four values has a newline.
pub record OneLineValues (h : Headers) : Type 0 where
  pub in_subject : OneLineValue h.subject
  pub in_messageid : OneLineValue h.messageid
  pub in_references : OneLineValue h.references
  pub in_inreplyto : OneLineValue h.inreplyto

abbrev OneLineReading : Reading → Type 0
OneLineReading (headers h) = OneLineValues h
OneLineReading _ = Unit

get_field-OneLine : (f : Field) (h : Headers) → OneLineValues h → OneLineValue (get_field f h)
get_field-OneLine subject_field h k = k.in_subject
get_field-OneLine messageid_field h k = k.in_messageid
get_field-OneLine references_field h k = k.in_references
get_field-OneLine inreplyto_field h k = k.in_inreplyto

set_field-OneLine :
    (f : Field) (v : Option Bytes) (h : Headers)
    → OneLineValue v
    → OneLineValues h
    → OneLineValues (set_field f v h)
set_field-OneLine subject_field v h n k = record {
  in_subject = n;
  in_messageid = k.in_messageid;
  in_references = k.in_references;
  in_inreplyto = k.in_inreplyto;
}
set_field-OneLine messageid_field v h n k = record {
  in_subject = k.in_subject;
  in_messageid = n;
  in_references = k.in_references;
  in_inreplyto = k.in_inreplyto;
}
set_field-OneLine references_field v h n k = record {
  in_subject = k.in_subject;
  in_messageid = k.in_messageid;
  in_references = n;
  in_inreplyto = k.in_inreplyto;
}
set_field-OneLine inreplyto_field v h n k = record {
  in_subject = k.in_subject;
  in_messageid = k.in_messageid;
  in_references = k.in_references;
  in_inreplyto = n;
}

abbrev OptionEnded : Option Bytes → Type 0
OptionEnded none = Unit
OptionEnded (some v) = Ended (cstr v)

module _ (y : Yasl) where
  strip_name-Ended :
      (value : Bytes) (o : Option ℕ) → EndedBehind value o → OptionEnded (strip_name value o)
  unfolding strip_name
  strip_name-Ended value none h = tt
  strip_name-Ended value (some p) h = skip_spaces-Ended _ h

  cat_value-OneLine :
      (str : Bytes) (value : Option Bytes)
      → OneLine str
      → OptionEnded value
      → OneLineValue (cat_value y str value)
  unfolding cat_value
  cat_value-OneLine str none h k = tt
  cat_value-OneLine str (some v) h k =
      rw (y.trim_ends, y.cat_append) (trim-OneLine _ (append-Ended str (cstr v) h k))

  or_empty-OneLine : (o : Option Bytes) → OneLineValue o → OneLine (or_empty o)
  unfolding or_empty
  or_empty-OneLine none h = tt
  or_empty-OneLine (some s) h = h

  value-Ended :
      (b : Bool) (value : Bytes)
      → Ended (cstr value)
      → OptionEnded (if b then strip_name value (strchr value b':') else some value)
  value-Ended true value h = strip_name-Ended value _ (strchr-EndedBehind value b':' h)
  value-Ended false value h = h

  append_header-OneLine :
      (str : Option Bytes) (value : Bytes) (strip : Bool)
      → OneLineValue str
      → Ended (cstr value)
      → OneLineValue (append_header y str value strip)
  unfolding append_header
  append_header-OneLine str value strip h k =
      cat_value-OneLine (or_empty str) _ (or_empty-OneLine str h) (value-Ended strip value k)

  append_to-OneLine :
      (s : Scan) (f : Option Field)
      → OneLineValues s.h
      → Ended (cstr s.buf)
      → OneLineValues (append_to y s f).h
  unfolding append_to
  append_to-OneLine s none h k = h
  append_to-OneLine s (some f) h k =
      set_field-OneLine f _ s.h
        (append_header-OneLine (get_field f s.h) s.buf s.stripfield (get_field-OneLine f s.h h) k) h

  act_in-OneLine :
      (st : HeaderState) (s : Scan)
      → OneLineValues s.h
      → Ended (cstr s.buf)
      → OneLineValues (act_in y st s).h
  unfolding act_in
  act_in-OneLine recipient s h k = h
  act_in-OneLine append s h k = append_to-OneLine s s.current_hdr h k
  act_in-OneLine unknown s h k = h
  act_in-OneLine noreply s h k = h

  abbrev OneLineLoop : Loop → Type 0
  OneLineLoop (finished s) = OneLineValues s.h
  OneLineLoop _ = Unit

  after-OneLine :
      {u : Scan} {v : Verdict} (next : Scan → Loop)
      → Keeps u v
      → OneLineValues u.h
      → Ended (cstr u.buf)
      → ((s : Scan) → OneLineValues s.h → OneLineLoop (next s))
      → OneLineLoop (after (acted y v) next)
  unfolding acted act
  after-OneLine next (keeps_go {t = t} e f) h k ih = ih _ (
      act_in-OneLine t.state t (subst (λ g. OneLineValues g) (sym e) h)
        (subst (λ b. Ended (cstr b)) (sym f) k))
  after-OneLine next (keeps_stop e) h k ih = subst (λ g. OneLineValues g) (sym e) h
  after-OneLine next keeps_suppress h k ih = tt

  if-OneLine :
      (b : Bool) (l l' : Loop) → OneLineLoop l → OneLineLoop l' → OneLineLoop (if b then l else l')
  if-OneLine true l l' h k = h
  if-OneLine false l l' h k = k

  header_round-OneLine :
      (line : Bytes) (s : Scan) (next : Scan → Loop)
      → Ended line
      → OneLineValues s.h
      → ((t : Scan) → OneLineValues t.h → OneLineLoop (next t))
      → OneLineLoop (header_round y line s next)
  unfolding header_round header_line
  header_round-OneLine line s next e h ih =
      let read : Scan = record s { buf = fill line s.buf } in
      if-OneLine (length line == 0) _ _ h (
        if-OneLine (char read.buf == b'\n') _ _ h
          (after-OneLine next (classify-Keeps y read) h (fill-Ended line s.buf e) ih))

  header_loop-OneLine :
      (fuel : ℕ) (stdin : Bytes) (s : Scan)
      → OneLineValues s.h
      → OneLineLoop (header_loop y fuel stdin s)
  unfolding header_loop
  header_loop-OneLine zero stdin s h = tt
  header_loop-OneLine (suc fuel) stdin s h =
      header_round-OneLine (fgets_line 999 stdin) s _ (fgets_line-Ended 999 stdin) h
        (λ t k. header_loop-OneLine fuel (fgets_rest 999 stdin) t k)

  closing-OneLine :
      (names : List Bytes) (l : Loop) {h : Headers}
      → OneLineLoop l
      → closing y names l ≡ headers h
      → OneLineValues h
  unfolding closing
  closing-OneLine names (finished s) k e =
      subst (λ g. OneLineReading g) e
        (record {
          in_subject = k.in_subject;
          in_messageid = k.in_messageid;
          in_references = k.in_references;
          in_inreplyto = k.in_inreplyto;
        })
  closing-OneLine names suppressed k e = cc
  closing-OneLine names exhausted k e = cc

  -- Whatever the input, be its lines longer than the buffer or full of any bytes: no value that is kept
  -- of the header has a newline, so that none can add a line to the header of the reply.
  pub readheaders-OneLineValues :
      (names : List Bytes) (garbage stdin : Bytes) {h : Headers}
      → readheaders y names garbage stdin ≡ headers h
      → OneLineValues h
  unfolding readheaders
  readheaders-OneLineValues names garbage stdin e =
      closing-OneLine names _
        (header_loop-OneLine (suc (length stdin)) stdin (initial garbage)
          (record { in_subject = tt; in_messageid = tt; in_references = tt; in_inreplyto = tt }))
        e
