-- ===== src/Headers/Bulk.antt =====
-- Lines of the header that ask for no reply, and what `readheaders` does at each.
use simvacation.Common.{
  ℕ, suc, ◌≤◌, ◌≡◌, ◌≢◌, ◌⊎◌, inl, inr, refl, ap, ◌∙◌, sym, Bool, true, false, ◌||◌, [], ◌∷◌, ◌++◌,
  map, Bytes, codes, length, drop, get_or, some, All, All-append, arith, ◌==◌, if◌then◌else◌,
  map-append, ne→==_false, append_assoc, drop-append_suc,
}
use mathlib.Core.Path.{subst}
use simvacation.CString.{char, cstr, tolower, isspace, strchr, skip_spaces, fill}
use simvacation.CString.Search.{Avoids, strchr-append}
use simvacation.CString.Lines.{skip_spaces-append, cstr-line}
use simvacation.Yasl.{Yasl}
use simvacation.Substring.Occurs.{Occurs, Occurs-append, is_substring-Occurs}
use simvacation.Headers.{
  Scan, go, suppress, check_header, classify, auto_submitted, precedence, response_suppress,
  is_bulk, noreply,
}
use simvacation.Headers.Lines.{with_line}
use simvacation.Headers.Keywords.{check_header-line}
use simvacation.Headers.Classify.{
  classify-list, classify-auto, classify-precedence, classify-response,
}
use simvacation.Headers.Words.{
  strncasecmp-same, check_header-same, length-lower, drop_behind, get_or-append, Avoids-lower,
  isspace_letter, IsBulkWord, IsBulkWord-letter, NotNo, strncasecmp-no, NotNo-newline,
}

-- What may stand between `Precedence` and the colon.
abbrev pub IsGap : Bytes → Type 0
IsGap gap = (gap ≡ []) ⊎ (((char gap ≡ b' ') ⊎ (char gap ≡ b'\t')) × Avoids b':' gap)

-- A line that asks for no reply, its name and words in whatever case: of a mailing list, of a message
-- that was sent by a program (a value that does not begin with `no`; the byte behind the colon is
-- any), of a precedence, or of the header that turns automatic replies off.
pub data BulkLine (l : Bytes) : Type 0 where
  list : (name w : Bytes) → l ≡ name ++ w → map tolower name ≡ codes "list-" → BulkLine l
  auto :
      (name : Bytes) (c : ℕ) (sp : Bytes) (d : ℕ) (w : Bytes)
      → l ≡ name ++ c ∷ (sp ++ d ∷ w)
      → map tolower name ≡ codes "auto-submitted:"
      → All (λ b. isspace b ≡ true) sp
      → isspace d ≡ false
      → d ≢ 0
      → NotNo (d ∷ w)
      → BulkLine l
  bulk :
      (name gap sp word w : Bytes)
      → l ≡ (name ++ gap) ++ b':' ∷ (sp ++ (word ++ w))
      → map tolower name ≡ codes "precedence"
      → IsGap gap
      → All (λ b. isspace b ≡ true) sp
      → IsBulkWord (map tolower word)
      → BulkLine l
  response :
      (name w : Bytes)
      → l ≡ name ++ w
      → map tolower name ≡ codes "x-auto-response-suppress:"
      → Occurs (codes "oof") (map tolower l) ⊎ Occurs (codes "all") (map tolower l)
      → BulkLine l

-- The buffer behind a line.
abbrev rest_of : Bytes → Scan → Bytes
rest_of l s = b'\n' ∷ 0 ∷ drop (suc (length (l ++ b'\n' ∷ []))) s.buf

buf-line : (l : Bytes) (s : Scan) → (with_line l s).buf ≡ l ++ rest_of l s
unfolding fill
buf-line l s = append_assoc l (b'\n' ∷ []) _

auto_submitted_refused :
    (s : Scan) (d : ℕ) (rest : Bytes)
    → skip_spaces (drop 16 s.buf) ≡ d ∷ rest
    → d ≢ 0
    → NotNo (d ∷ rest)
    → auto_submitted s ≡ suppress
unfolding auto_submitted
auto_submitted_refused s d rest e z n =
    rw e (rw (ne→==_false d 0 z) (rw (strncasecmp-no d rest z n)))

is_gap_byte :
    (c : ℕ) → (c ≡ b':') ⊎ (c ≡ b' ') ⊎ (c ≡ b'\t') → (c == b':' || c == b' ' || c == b'\t') ≡ true
is_gap_byte c h = ground arith

precedence_refused :
    (s : Scan) (p : ℕ) (v : Bytes)
    → (get_or s.buf 10 0 ≡ b':') ⊎ (get_or s.buf 10 0 ≡ b' ') ⊎ (get_or s.buf 10 0 ≡ b'\t')
    → strchr s.buf b':' ≡ some p
    → skip_spaces (drop (suc p) s.buf) ≡ v
    → char v ≢ 0
    → is_bulk v ≡ true
    → precedence s ≡ suppress
unfolding precedence
precedence_refused s p v c at e z b = rw (is_gap_byte _ c, at, e, ne→==_false (char v) 0 z, b)

or_true : (a : Bool) → (a || true) ≡ true
or_true true = refl
or_true false = refl

is_bulk-word : (word rest : Bytes) → IsBulkWord (map tolower word) → is_bulk (word ++ rest) ≡ true
unfolding is_bulk tolower
is_bulk-word word rest (inl e) =
    let long : 4 ≤ length word = omega (arith, length-lower word (codes "junk") e) in
    rw (strncasecmp-same 4 word (codes "junk") rest [] e long)
is_bulk-word word rest (inr (inl e)) =
    let long : 4 ≤ length word = omega (arith, length-lower word (codes "bulk") e) in
    rw (strncasecmp-same 4 word (codes "bulk") rest [] e long, or_true)
is_bulk-word word rest (inr (inr e)) =
    let long : 4 ≤ length word = omega (arith, length-lower word (codes "list") e) in
    rw (strncasecmp-same 4 word (codes "list") rest [] e long) (or_true _)

either_way : (b : Bool) (s : Scan) → (if b || true then suppress else go s) ≡ suppress
either_way true s = refl
either_way false s = refl

-- The words stand in the line as it is in the buffer, too.
either_word :
    (l : Bytes)
    → Occurs (codes "oof") (map tolower l) ⊎ Occurs (codes "all") (map tolower l)
    → Occurs (codes "oof") (map tolower (l ++ b'\n' ∷ []))
      ⊎ Occurs (codes "all") (map tolower (l ++ b'\n' ∷ []))
either_word l (inl o) = rw map-append (inl (Occurs-append (codes "oof") _ _ o))
either_word l (inr o) = rw map-append (inr (Occurs-append (codes "all") _ _ o))

module _ (y : Yasl) where
  auto_verdict :
      (name : Bytes) (c : ℕ) (sp : Bytes) (d : ℕ) (w : Bytes) (s : Scan)
      → map tolower name ≡ codes "auto-submitted:"
      → All (λ b. isspace b ≡ true) sp
      → isspace d ≡ false
      → d ≢ 0
      → NotNo (d ∷ w)
      → classify y (with_line (name ++ c ∷ (sp ++ d ∷ w)) s) ≡ suppress
  unfolding tolower
  auto_verdict name c sp d w s e h k z n =
      let l : Bytes = name ++ c ∷ (sp ++ d ∷ w) in
      let r = rest_of l s in
      let line = with_line l s in
      let buf : line.buf ≡ name ++ c ∷ (sp ++ d ∷ (w ++ r)) =
        buf-line l s
        ∙ append_assoc name (c ∷ (sp ++ d ∷ w)) r
        ∙ ap (λ t. name ++ c ∷ t) (append_assoc sp (d ∷ w) r) in
      let far : suc (length name) ≡ 16 =
        omega (arith, length-lower name (codes "auto-submitted:") e) in
      classify-auto y line (
        ap (λ t. check_header t (codes "Auto-Submitted:")) buf
        ∙ check_header-same (codes "Auto-Submitted:") name _ (sym e))
      ∙ auto_submitted_refused (record line { state = noreply }) d (w ++ r)
          (ap (λ t. skip_spaces (drop 16 t)) buf
            ∙ ap skip_spaces (drop_behind 16 name c _ far)
            ∙ skip_spaces-append sp d _ h k)
          z (NotNo-newline d w _ n)

  gap_byte :
      (gap rest : Bytes)
      → IsGap gap
      → (char (gap ++ b':' ∷ rest) ≡ b':')
        ⊎ (char (gap ++ b':' ∷ rest) ≡ b' ')
        ⊎ (char (gap ++ b':' ∷ rest) ≡ b'\t')
  gap_byte [] rest h = inl refl
  gap_byte (c ∷ gap) rest (inl e) = cc
  gap_byte (c ∷ gap) rest (inr (b, a)) = inr b

  gap-Avoids : (gap : Bytes) → IsGap gap → Avoids b':' gap
  gap-Avoids gap (inl e) = rw e tt
  gap-Avoids gap (inr (b, a)) = a

  bulk_verdict :
      (name gap sp : Bytes) (d : ℕ) (u w : Bytes) (s : Scan)
      → map tolower name ≡ codes "precedence"
      → IsGap gap
      → All (λ b. isspace b ≡ true) sp
      → IsBulkWord (map tolower (d ∷ u))
      → classify y (with_line ((name ++ gap) ++ b':' ∷ (sp ++ (d ∷ (u ++ w)))) s) ≡ suppress
  unfolding tolower
  bulk_verdict name gap sp d u w s e g h b =
      let l : Bytes = (name ++ gap) ++ b':' ∷ (sp ++ (d ∷ (u ++ w))) in
      let r = rest_of l s in
      let line = with_line l s in
      let value : Bytes = sp ++ (d ∷ (u ++ (w ++ r))) in
      let buf : line.buf ≡ (name ++ gap) ++ b':' ∷ value =
        buf-line l s
        ∙ append_assoc (name ++ gap) (b':' ∷ (sp ++ (d ∷ (u ++ w)))) r
        ∙ ap (λ t. (name ++ gap) ++ b':' ∷ t)
            (append_assoc sp (d ∷ (u ++ w)) r ∙ ap (λ t. sp ++ (d ∷ t)) (append_assoc u w r)) in
      let apart : line.buf ≡ name ++ (gap ++ b':' ∷ value) =
        buf ∙ append_assoc name gap (b':' ∷ value) in
      let (letter, z) = isspace_letter d (IsBulkWord-letter d u b) in
      let plain : Avoids b':' (map tolower name) =
        subst (λ t. Avoids b':' t) (sym e) (omega arith) in
      let at_ten =
        ap (λ t. get_or t 10 0) apart
        ∙ get_or-append 10 name (gap ++ b':' ∷ value) (length-lower name (codes "precedence") e) in
      classify-precedence y line (
        ap (λ t. check_header t (codes "Precedence")) apart
        ∙ check_header-same (codes "Precedence") name _ (sym e))
      ∙ precedence_refused (record line { state = noreply }) (length (name ++ gap))
          ((d ∷ u) ++ (w ++ r)) (rw at_ten (gap_byte gap value g))
          (ap (λ t. strchr t b':') buf
            ∙ strchr-append b':' (name ++ gap) value (omega arith)
                (All-append _ name gap (Avoids-lower name plain) (gap-Avoids gap g)))
          (ap (λ t. skip_spaces (drop (suc (length (name ++ gap))) t)) buf
            ∙ ap skip_spaces (drop-append_suc (name ++ gap) b':' value)
            ∙ skip_spaces-append sp d _ h letter)
          z (is_bulk-word (d ∷ u) (w ++ r) b)

  response_suppress-Occurs :
      (s : Scan)
      → Occurs (codes "oof") (map tolower (cstr s.buf))
        ⊎ Occurs (codes "all") (map tolower (cstr s.buf))
      → response_suppress y s ≡ suppress
  unfolding response_suppress tolower
  response_suppress-Occurs s (inl o) = rw (is_substring-Occurs y (codes "OOF") (cstr s.buf) false o)
  response_suppress-Occurs s (inr o) =
      rw (is_substring-Occurs y (codes "All") (cstr s.buf) false o) (either_way _ s)

  -- Every line of these kinds ends the loop with `return NULL`, whatever the buffer held before.
  pub classify-BulkLine :
      (l : Bytes) (s : Scan) → Avoids b'\n' l → BulkLine l → classify y (with_line l s) ≡ suppress
  unfolding tolower
  classify-BulkLine l s a (list name w e n) = classify-list y (with_line l s) (
      check_header-line (codes "List-") l s (omega arith)
      ∙ ap (λ t. check_header t (codes "List-")) e
      ∙ check_header-same (codes "List-") name w (sym n))
  classify-BulkLine l s a (auto name c sp d w e n h k z v) =
      rw e (auto_verdict name c sp d w s n h k z v)
  classify-BulkLine l s a (bulk name gap sp [] w e n g h (inl f)) = cc
  classify-BulkLine l s a (bulk name gap sp [] w e n g h (inr (inl f))) = cc
  classify-BulkLine l s a (bulk name gap sp [] w e n g h (inr (inr f))) = cc
  classify-BulkLine l s a (bulk name gap sp (d ∷ u) w e n g h f) =
      rw e (bulk_verdict name gap sp d u w s n g h f)
  classify-BulkLine l s a (response name w e n o) =
      classify-response y (with_line l s) (
        check_header-line (codes "X-Auto-Response-Suppress:") l s (omega arith)
        ∙ ap (λ t. check_header t (codes "X-Auto-Response-Suppress:")) e
        ∙ check_header-same (codes "X-Auto-Response-Suppress:") name w (sym n))
      ∙ response_suppress-Occurs (record (with_line l s) { state = noreply })
          (unfold fill in rw (cstr-line l _ a) (either_word l o))
