-- ===== src/Tests/Reply.antt =====
-- The text of a reply to a concrete message.
use simvacation.Common.{◌≡◌, refl, true, false, some, none, [], ◌++◌, Bytes, codes, All, arith}
use simvacation.CString.{
  strncasecmp, strchr, strstr, tolower, isspace, skip_spaces, fgets_line, fgets_rest, fill,
}
use simvacation.CString.Ends.{OneLine}
use simvacation.Substring.{is_substring}
use simvacation.Headers.{Headers, readheaders, headers, check_header, append_header}
use simvacation.Headers.Lines.{message}
use simvacation.Headers.Values.{OneLineValues, readheaders-OneLineValues}
use simvacation.Reply.{System, reply_text}
use simvacation.Reply.Lines.{reply_lines}
use simvacation.Reply.OneLine.{reply_text-readheaders}
use simvacation.Tests.Model.{model}

-- A continuation line that looks like a header.
abbrev stdin : Bytes
stdin = codes "Subject: hi\n Bcc: x\nReferences: <0>\nMessage-ID: <1>\n\nhello\n"

abbrev read : Headers
read = record {
  subject = some (codes "hi Bcc: x");
  messageid = some (codes "<1>");
  references = some (codes "<0>");
  inreplyto = none;
  rcpt_match = false;
}

read_runs : readheaders model [] [] stdin ≡ headers read
unfolding readheaders check_header append_header is_substring strncasecmp strchr strstr tolower
    isspace skip_spaces fgets_line fgets_rest fill
read_runs = refl

readheaders-OneLineValues_example : OneLineValues read
readheaders-OneLineValues_example = readheaders-OneLineValues model [] [] stdin read_runs

abbrev system : System
system = record {
  pipe_works = true;
  fork_works = true;
  parent_close_read = true;
  parent_dup2 = true;
  parent_close_write = true;
  child_close_write = true;
  child_dup2 = true;
  child_close_read = true;
  clock = none;
  pid = 77;
  hostname = codes "mx";
}

reply_text-readheaders_example :
    (reply_text system (codes "al@ex.edu") (codes "bob@ex.edu") (codes "away") (codes "Out") read
      ≡ message
          (reply_lines system (codes "al@ex.edu") (codes "bob@ex.edu") (codes "Out") read)
          (codes "away" ++ codes "\n"))
    × All OneLine (reply_lines system (codes "al@ex.edu") (codes "bob@ex.edu") (codes "Out") read)
reply_text-readheaders_example =
    reply_text-readheaders model [] [] stdin system (codes "al@ex.edu") (codes "bob@ex.edu")
      (codes "away") (codes "Out") read_runs (omega arith) (omega arith) (omega arith) (omega arith)
