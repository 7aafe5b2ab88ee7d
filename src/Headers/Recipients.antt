-- ===== src/Headers/Recipients.antt =====
-- `rcpt_hdrs`: the text of the recipient headers that `readheaders` looks for the names in.
use simvacation.Common.{
  ◌≡◌, ◌⊎◌, inl, inr, refl, ap, ◌∙◌, sym, Bool, true, false, List, [], ◌∷◌, ◌++◌, map, Bytes, All,
  if◌then◌else◌, append_assoc, append-nil,
}
use simvacation.CString.{cstr, tolower, fill}
use simvacation.CString.Lines.{cstr-line}
use simvacation.Yasl.{Yasl}
use simvacation.Substring.Occurs.{Occurs, lowered, is_substring-decides}
use simvacation.Headers.{
  Headers, Scan, HeaderState, unknown, recipient, append, noreply, Verdict, Loop, finished,
  suppressed, exhausted, after, act, act_in, acted, append_to, header_line, any_name, Reading,
  headers, closing, initial, readheaders,
}
use simvacation.Headers.Lines.{IsLine, message, lines_loop, readheaders-lines}
use simvacation.Headers.Suppress.{CannotBreak}
use simvacation.Headers.Follow.{
  Follows, follows, refuses, is_recipient, belongs, collected, classify-belongs,
}
use simvacation.Common.{Option, none, some}

-- What the line in the buffer adds to `rcpt_hdrs`.
abbrev added : Bool → Bytes → Bytes
added on text = if on then text ++ b' ' ∷ [] else []

abbrev piece : Bool → Bytes → Bytes
piece on l = if on then l ++ b'\n' ∷ b' ' ∷ [] else []

added-piece : (on : Bool) (l text : Bytes) → text ≡ l ++ b'\n' ∷ [] → added on text ≡ piece on l
added-piece true l text e = ap (λ t. t ++ b' ' ∷ []) e ∙ append_assoc l (b'\n' ∷ []) (b' ' ∷ [])
added-piece false l text e = refl

abbrev text_of : Loop → Bytes
text_of (finished s) = s.rcpt_hdrs
text_of _ = []

abbrev match_of : Reading → Bool
match_of (headers h) = h.rcpt_match
match_of _ = false

-- One of the names stands in the text, both in lower case, and each `.` and `_` of the text
-- read as a blank.
abbrev pub AnyName : List Bytes → Bytes → Type 0
AnyName [] text = ⊥
AnyName (name ∷ names) text = Occurs (map tolower name) (lowered text true) ⊎ AnyName names text

module _ (y : Yasl) where
  append_to-rcpt : (s : Scan) (f : Option _) → (append_to y s f).rcpt_hdrs ≡ s.rcpt_hdrs ++ []
  unfolding append_to
  append_to-rcpt s none = sym (append-nil _)
  append_to-rcpt s (some f) = sym (append-nil _)

  append_to-state : (s : Scan) (f : Option _) → (append_to y s f).state ≡ s.state
  unfolding append_to
  append_to-state s none = refl
  append_to-state s (some f) = refl

  act_in-rcpt :
      (st : HeaderState) (s : Scan)
      → (act_in y st s).rcpt_hdrs ≡ s.rcpt_hdrs ++ added (is_recipient st) (cstr s.buf)
  unfolding act_in
  act_in-rcpt recipient s =
      rw (y.catlen_append, y.cat_append) (append_assoc s.rcpt_hdrs (cstr s.buf) _)
  act_in-rcpt append s = append_to-rcpt s s.current_hdr
  act_in-rcpt unknown s = sym (append-nil _)
  act_in-rcpt noreply s = sym (append-nil _)

  act_in-state : (st : HeaderState) (s : Scan) → (act_in y st s).state ≡ s.state
  unfolding act_in
  act_in-state append s = append_to-state s s.current_hdr
  act_in-state _ s = refl

  act-rcpt :
      (s : Scan) → (act y s).rcpt_hdrs ≡ s.rcpt_hdrs ++ added (is_recipient s.state) (cstr s.buf)
  unfolding act
  act-rcpt s = act_in-rcpt s.state s

  act-state : (s : Scan) → (act y s).state ≡ s.state
  unfolding act
  act-state s = act_in-state s.state s

  after-collected :
      {u : Scan} (l : Bytes) (on : Bool) {v : Verdict} (ls : List Bytes) (next : Scan → Loop)
      {t : Scan}
      → Follows u on v
      → cstr u.buf ≡ l ++ b'\n' ∷ []
      → ((s : Scan)
          → next s ≡ finished t
          → t.rcpt_hdrs ≡ s.rcpt_hdrs ++ collected (is_recipient s.state) ls)
      → after (acted y v) next ≡ finished t
      → t.rcpt_hdrs ≡ u.rcpt_hdrs ++ (piece on l ++ collected on ls)
  unfolding acted
  after-collected l on ls next refuses c ih e = cc
  after-collected l on ls next (follows {t = s} p q r) c ih e =
      rw (ih (act y s) e, act-rcpt, act-state, r, p, q, added-piece on l _ c)
        (append_assoc _ (piece on l) _)

  lines_loop-collected :
      (ls : List Bytes) (s : Scan) {t : Scan}
      → All IsLine ls
      → All CannotBreak ls
      → lines_loop y ls s ≡ finished t
      → t.rcpt_hdrs ≡ s.rcpt_hdrs ++ collected (is_recipient s.state) ls
  unfolding lines_loop header_line
  lines_loop-collected [] s h k e = ap text_of (sym e) ∙ sym (append-nil s.rcpt_hdrs)
  lines_loop-collected (l ∷ ls) s h k e =
      after-collected l (belongs (is_recipient s.state) l) ls (lines_loop y ls)
        (classify-belongs y l s h.0 k.0) (unfold fill in cstr-line l _ h.0.1)
        (λ t. lines_loop-collected ls t h.1 k.1) e

  any_name-decides :
      (names : List Bytes) (text : Bytes)
      → ((any_name y text names ≡ true) × AnyName names text)
        ⊎ ((any_name y text names ≡ false) × ¬ AnyName names text)
  unfolding any_name
  any_name-decides [] text = inr (refl, λ m. m)
  any_name-decides (name ∷ names) text = elim (is_substring-decides y name text true) [
    | inl (t, o) ↦ inl (rw t, inl o)
    | inr (f, no_one) ↦ elim (any_name-decides names text) [
      | inl (t, o) ↦ inl (rw (f, t), inr o)
      | inr (g, none_of) ↦ inr (rw (f, g), elim [ inl o ↦ no_one o | inr o ↦ none_of o ])
    ]
  ]

  closing-match :
      (names : List Bytes) (l : Loop) {h : Headers}
      → closing y names l ≡ headers h
      → (t : Scan) × (l ≡ finished t) × (h.rcpt_match ≡ any_name y t.rcpt_hdrs names)
  unfolding closing
  closing-match names (finished t) e = (t, refl, ap match_of (sym e))
  closing-match names suppressed e = cc
  closing-match names exhausted e = cc

  -- The headers that are returned match the recipient exactly if one of the names, in lower case, stands
  -- in the text of the `To:` and `Cc:` headers of the message, their continuation lines included, in
  -- lower case and with each `.` and `_` of the text, not of the name, read as a blank: a name that has
  -- one of these is never found. The header's lines are not empty, fit the buffer and have no NUL, and
  -- none of them is an Auto-Submitted or Precedence line.
  pub readheaders-recipients :
      (names : List Bytes) (garbage : Bytes) (ls : List Bytes) (body : Bytes) {h : Headers}
      → All IsLine ls
      → All CannotBreak ls
      → readheaders y names garbage (message ls body) ≡ headers h
      → ((h.rcpt_match ≡ true) × AnyName names (collected false ls))
        ⊎ ((h.rcpt_match ≡ false) × ¬ AnyName names (collected false ls))
  readheaders-recipients names garbage ls body lines k e =
      let (t, f, m) =
        closing-match names (lines_loop y ls (initial garbage))
          (sym (readheaders-lines y names garbage ls body lines) ∙ e) in
      let text = lines_loop-collected ls (initial garbage) lines k f in
      rw (m, text) (any_name-decides names (collected false ls))
