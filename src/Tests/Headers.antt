-- ===== src/Tests/Headers.antt =====
-- Messages and what is kept of their headers.
use simvacation.Common.{
  ◌≡◌, ◌≢◌, ◌⊎◌, inl, inr, refl, arith, List, All, none, some, true, false, codes, [], ◌∷◌, Bytes,
}
use simvacation.CString.{
  strncasecmp, strchr, strstr, tolower, isspace, skip_spaces, fgets_line, fgets_rest, fill,
}
use simvacation.Substring.{is_substring}
use simvacation.Headers.{
  Headers, readheaders, headers, no_reply, out_of_fuel, check_header, append_header,
}
use simvacation.Headers.Lines
use simvacation.Headers.Bulk
use simvacation.Headers.Total.{readheaders-total}
use simvacation.Headers.Lines.{IsLine, readheaders_ignores_body}
use simvacation.Headers.Suppress.{readheaders-BulkLine}
use simvacation.Headers.Follow.{collected}
use simvacation.Headers.Recipients.{AnyName, readheaders-recipients}
use simvacation.Tests.Model.{model}

abbrev message : Bytes
message =
    codes
      "From: x\nTo: A <a.b@example.com>,\n c@example.com\nSubject:  hi\n there\nMessage-ID: <1>\n\nCc: body\n"

readheaders_runs :
    (readheaders model (codes "A B" ∷ []) [] message
      ≡ headers (record {
        subject = some (codes "hi there");
        messageid = some (codes "<1>");
        references = none;
        inreplyto = none;
        rcpt_match = true;
      }))
    × (readheaders model [] [] (codes "List-Id: x\n\n") ≡ no_reply)
    × (readheaders model [] [] (codes "Auto-Submitted:no\n\n") ≡ no_reply)
    × (readheaders model [] [] (codes "PRECEDENCE : bulk\n\n") ≡ no_reply)
unfolding readheaders check_header append_header is_substring strncasecmp strchr strstr tolower
    isspace skip_spaces fgets_line fgets_rest fill
readheaders_runs = (refl, refl, refl, refl)

-- A name with a dot is not found in its own address.
dotted_name :
    readheaders model (codes "a.b" ∷ []) [] (codes "To: a.b@umich.edu\n\n")
    ≡ headers (record {
      subject = none;
      messageid = none;
      references = none;
      inreplyto = none;
      rcpt_match = false;
    })
unfolding readheaders check_header append_header is_substring strncasecmp strchr strstr tolower
    isspace skip_spaces fgets_line fgets_rest fill
dotted_name = refl

readheaders-total_example : readheaders model [] [] message ≢ out_of_fuel
readheaders-total_example = readheaders-total model [] [] message

abbrev lines : List Bytes
lines = codes "Subject: hi" ∷ codes "List-Id: x" ∷ codes "To: a.b" ∷ []

lines-IsLine : All IsLine lines
lines-IsLine = (
  (λ e. cc, omega arith, omega arith),
  ((λ e. cc, omega arith, omega arith), ((λ e. cc, omega arith, omega arith), tt)),
)

readheaders_ignores_body_example :
    readheaders model [] [] (Lines.message lines (codes "x"))
    ≡ readheaders model [] [] (Lines.message lines (codes "y"))
readheaders_ignores_body_example =
    readheaders_ignores_body model [] [] lines (codes "x") (codes "y") lines-IsLine

abbrev bulk_lines : List Bytes
bulk_lines = codes "Subject: hi" ∷ codes "PRECEDENCE : Bulk" ∷ codes "To: a.b" ∷ []

bulk_lines-IsLine : All IsLine bulk_lines
bulk_lines-IsLine = (
  (λ e. cc, omega arith, omega arith),
  ((λ e. cc, omega arith, omega arith), ((λ e. cc, omega arith, omega arith), tt)),
)

readheaders-BulkLine_example : readheaders model [] [] (Lines.message bulk_lines []) ≡ no_reply
unfolding check_header strncasecmp tolower isspace
readheaders-BulkLine_example =
    readheaders-BulkLine model [] [] (codes "Subject: hi" ∷ []) (codes "PRECEDENCE : Bulk")
      (codes "To: a.b" ∷ []) [] bulk_lines-IsLine ((refl, refl), tt)
      (Bulk.bulk (codes "PRECEDENCE") (codes " ") (codes " ") (codes "Bulk") [] refl refl
        (inr (inl refl, omega arith)) (refl, tt) (inr (inl refl)))

abbrev to_lines : List Bytes
to_lines = codes "To: A" ∷ codes " B <c@d>" ∷ codes "X: y" ∷ []

abbrev read : Headers
read = record {
  subject = none;
  messageid = none;
  references = none;
  inreplyto = none;
  rcpt_match = true;
}

read_runs : readheaders model (codes "b" ∷ []) [] (Lines.message to_lines []) ≡ headers read
unfolding readheaders check_header append_header is_substring strncasecmp strchr strstr tolower
    isspace skip_spaces fgets_line fgets_rest fill
read_runs = refl

readheaders-recipients_example :
    ((read.rcpt_match ≡ true) × AnyName (codes "b" ∷ []) (collected false to_lines))
    ⊎ ((read.rcpt_match ≡ false) × ¬ AnyName (codes "b" ∷ []) (collected false to_lines))
unfolding check_header strncasecmp tolower
readheaders-recipients_example =
    readheaders-recipients model (codes "b" ∷ []) [] to_lines []
      (
        (λ e. cc, omega arith, omega arith),
        ((λ e. cc, omega arith, omega arith), ((λ e. cc, omega arith, omega arith), tt)),
      )
      ((refl, refl), ((refl, refl), ((refl, refl), tt))) read_runs
