-- ===== src/Reply/Lines.antt =====
-- `send_message`: the text of the reply, seen as the lines of its header and its body.
use simvacation.Common.{
  ◌≡◌, ◌≢◌, refl, sym, ap, ◌∙◌, Bool, true, false, Option, none, some, List, [], ◌∷◌, ◌++◌, Bytes,
  codes, append_assoc, ltb, if◌then◌else◌,
}
use simvacation.CString.Print.{shown}
use simvacation.Headers.{Headers}
use simvacation.Headers.Lines.{message}
use simvacation.Reply.{
  System, yasllen, subject_suffix, in_reply_to, references_line, message_id, reply_text,
}

-- RFC 2822, 3.6.4: the parent's references, or else what it is a reply to, if it has one of them.
abbrev pub parents : Headers → Option Bytes
parents h =
    if ltb 0 (yasllen h.references)
    then h.references
    else if ltb 0 (yasllen h.inreplyto)
    then h.inreplyto
    else none

abbrev pub optional_line : Bool → Bytes → List Bytes
optional_line b l = if b then l ∷ [] else []

-- … and behind them the parent's message id.
abbrev pub references_for : Option Bytes → Option Bytes → List Bytes
references_for none messageid =
    optional_line (ltb 0 (yasllen messageid)) (codes "References: " ++ shown messageid)
references_for (some p) messageid =
    (codes "References: " ++ (p ++ (codes " " ++ shown messageid))) ∷ []

-- The lines of the reply's header.
abbrev pub reply_lines : System → Bytes → Bytes → Bytes → Headers → List Bytes
reply_lines o sender canon_rcpt subject h =
    (codes "Message-ID: <" ++ (message_id o ++ codes ">"))
    ∷ (codes "From: " ++ sender)
    ∷ (codes "To: " ++ canon_rcpt)
    ∷ (codes "Subject: " ++ (subject ++ subject_suffix h.subject))
    ∷ (optional_line (ltb 0 (yasllen h.messageid)) (codes "In-Reply-To: " ++ shown h.messageid)
        ++ (references_for (parents h) h.messageid
            ++ (codes "Auto-Submitted: auto-replied"
                ∷ codes "MIME-Version: 1.0"
                ∷ codes "Content-Type: text/plain; charset=UTF-8"
                ∷ [])))

line-eq :
    (name value rest : Bytes)
    → name ++ (value ++ (codes "\n" ++ rest)) ≡ (name ++ value) ++ b'\n' ∷ rest
line-eq name value rest = sym (append_assoc name value (b'\n' ∷ rest))

line-end :
    (name value rest : Bytes)
    → (name ++ (value ++ codes "\n")) ++ rest ≡ (name ++ value) ++ b'\n' ∷ rest
line-end name value rest =
    ap (λ u. u ++ rest) (sym (append_assoc name value (codes "\n")))
    ∙ append_assoc (name ++ value) (codes "\n") rest

abbrev printed : Bool → Bytes → Bytes → Bytes
printed b name value = if b then name ++ (value ++ codes "\n") else []

optional-line :
    (b : Bool) (name value : Bytes) (ls : List Bytes) (body : Bytes)
    → printed b name value ++ message ls body ≡ message (optional_line b (name ++ value) ++ ls) body
optional-line true name value ls body = line-end name value (message ls body)
optional-line false name value ls body = refl

in_reply_to-line :
    (h : Headers) (ls : List Bytes) (body : Bytes)
    → in_reply_to h ++ message ls body
      ≡ message
          (optional_line (ltb 0 (yasllen h.messageid)) (codes "In-Reply-To: " ++ shown h.messageid)
            ++ ls)
          body
unfolding in_reply_to
in_reply_to-line h ls body =
    optional-line (ltb 0 (yasllen h.messageid)) (codes "In-Reply-To: ") (shown h.messageid) ls body

-- The line of references, by the tests of the code.
references_by : Bool → Bool → Bool → Option Bytes → Option Bytes → Option Bytes → Bytes
references_by a b c references inreplyto messageid =
    if a
    then codes "References: "
      ++ (shown references ++ (codes " " ++ (shown messageid ++ codes "\n")))
    else if b
    then codes "References: " ++ (shown inreplyto ++ (codes " " ++ (shown messageid ++ codes "\n")))
    else if c
    then codes "References: " ++ (shown messageid ++ codes "\n")
    else []

two-values :
    (p m rest : Bytes)
    → (codes "References: " ++ (p ++ (codes " " ++ (m ++ codes "\n")))) ++ rest
      ≡ (codes "References: " ++ (p ++ (codes " " ++ m))) ++ b'\n' ∷ rest
two-values p m rest =
    ap (λ u. (codes "References: " ++ u) ++ rest)
      (sym (append_assoc p (codes " " ++ m) (codes "\n")))
    ∙ line-end (codes "References: ") (p ++ (codes " " ++ m)) rest

parents_by : Bool → Bool → Option Bytes → Option Bytes → Option Bytes
parents_by a b references inreplyto = if a then references else if b then inreplyto else none

references-by :
    (a b : Bool) (r i m : Option Bytes) (ls : List Bytes) (body : Bytes)
    → (a ≡ true → r ≢ none)
    → (b ≡ true → i ≢ none)
    → references_by a b (ltb 0 (yasllen m)) r i m ++ message ls body
      ≡ message (references_for (parents_by a b r i) m ++ ls) body
unfolding references_by parents_by shown
references-by true b none i m ls body h k = absurd (h refl refl)
references-by true b (some p) i m ls body h k = two-values p _ (message ls body)
references-by false true r none m ls body h k = absurd (k refl refl)
references-by false true r (some p) m ls body h k = two-values p _ (message ls body)
references-by false false r i m ls body h k =
    optional-line (ltb 0 (yasllen m)) (codes "References: ") (shown m) ls body

is_there : (o : Option Bytes) → ltb 0 (yasllen o) ≡ true → o ≢ none
is_there none h e = cc
is_there (some s) h e = cc

references_line-lines :
    (h : Headers) (ls : List Bytes) (body : Bytes)
    → references_line h ++ message ls body
      ≡ message (references_for (parents h) h.messageid ++ ls) body
unfolding references_line references_by parents_by
references_line-lines h ls body =
    references-by (ltb 0 (yasllen h.references)) (ltb 0 (yasllen h.inreplyto)) h.references
      h.inreplyto h.messageid ls body (is_there h.references) (is_there h.inreplyto)

abbrev closing_lines : List Bytes
closing_lines =
    codes "Auto-Submitted: auto-replied"
    ∷ codes "MIME-Version: 1.0"
    ∷ codes "Content-Type: text/plain; charset=UTF-8"
    ∷ []

first-line :
    (id rest : Bytes)
    → codes "Message-ID: <" ++ (id ++ (codes ">\n" ++ rest))
      ≡ (codes "Message-ID: <" ++ (id ++ codes ">")) ++ b'\n' ∷ rest
first-line id rest =
    ap (λ u. codes "Message-ID: <" ++ u) (sym (append_assoc id (codes ">") (b'\n' ∷ rest)))
    ∙ sym (append_assoc (codes "Message-ID: <") (id ++ codes ">") (b'\n' ∷ rest))

subject-line :
    (subject suffix rest : Bytes)
    → codes "Subject: " ++ (subject ++ (suffix ++ (codes "\n" ++ rest)))
      ≡ (codes "Subject: " ++ (subject ++ suffix)) ++ b'\n' ∷ rest
subject-line subject suffix rest =
    ap (λ u. codes "Subject: " ++ u) (sym (append_assoc subject suffix (b'\n' ∷ rest)))
    ∙ line-eq (codes "Subject: ") (subject ++ suffix) rest

pub reply_text-lines :
    (o : System) (sender canon_rcpt vmsg subject : Bytes) (h : Headers)
    → reply_text o sender canon_rcpt vmsg subject h
      ≡ message (reply_lines o sender canon_rcpt subject h) (vmsg ++ codes "\n")
unfolding reply_text
reply_text-lines o sender canon_rcpt vmsg subject h =
    let body = vmsg ++ codes "\n" in
    let optional =
      ap (λ u. in_reply_to h ++ u) (references_line-lines h closing_lines body)
      ∙ in_reply_to-line h (references_for (parents h) h.messageid ++ closing_lines) body in
    first-line (message_id o) _
    ∙ ap (λ u. (codes "Message-ID: <" ++ (message_id o ++ codes ">")) ++ b'\n' ∷ u)
        (line-eq (codes "From: ") sender _
          ∙ ap (λ u. (codes "From: " ++ sender) ++ b'\n' ∷ u)
              (line-eq (codes "To: ") canon_rcpt _
                ∙ ap (λ u. (codes "To: " ++ canon_rcpt) ++ b'\n' ∷ u)
                    (subject-line subject (subject_suffix h.subject) _
                      ∙ ap
                          (λ u.
                            (codes "Subject: " ++ (subject ++ subject_suffix h.subject))
                            ++ b'\n' ∷ u)
                          optional)))
