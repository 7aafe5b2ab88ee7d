-- ===== src/Headers/Follow.antt =====
-- What one line of the header does to the state that concerns the recipients.
use simvacation.Common.{
  ℕ, ◌<◌, ◌≡◌, inl, inr, refl, ◌∙◌, Bool, true, false, not, ◌||◌, ◌&&◌, List, [], ◌∷◌, ◌++◌, Bytes,
  codes, length, arith, if◌then◌else◌, Bool-cases,
}
use simvacation.CString.{char, tolower, isspace, fill}
use simvacation.CString.Lines.{strncasecmp-char}
use simvacation.Yasl.{Yasl}
use simvacation.Headers.{
  Scan, HeaderState, recipient, Verdict, go, suppress, check_header, classify, response_suppress,
}
use simvacation.Headers.Lines.{IsLine, with_line}
use simvacation.Headers.Keywords.{check_header-line, check_header_other}
use simvacation.Headers.Suppress.{CannotBreak}

abbrev pub is_recipient : HeaderState → Bool
is_recipient recipient = true
is_recipient _ = false

abbrev pub starts_recipients : Bytes → Bool
starts_recipients l = check_header l (codes "Cc:") || check_header l (codes "To:")

-- Whether a line belongs to a recipient header, from whether the line before it does.
abbrev pub belongs : Bool → Bytes → Bool
belongs before l = if starts_recipients l then true else before && isspace (char l)

-- The lines that belong to the recipient headers, each with its newline and a blank behind it.
abbrev pub collected : Bool → List Bytes → Bytes
collected before [] = []
collected before (l ∷ ls) =
    (if belongs before l then l ++ b'\n' ∷ b' ' ∷ [] else []) ++ collected (belongs before l) ls

-- What `classify` does to the state that concerns the recipients.
pub data Follows (u : Scan) (on : Bool) : Verdict → Type 0 where
  follows :
      {t : Scan}
      → t.rcpt_hdrs ≡ u.rcpt_hdrs
      → t.buf ≡ u.buf
      → is_recipient t.state ≡ on
      → Follows u on (go t)
  refuses : Follows u on suppress

Follows-if :
    (u : Scan) (on b : Bool) (v w : Verdict)
    → (b ≡ true → Follows u on v)
    → (b ≡ false → Follows u on w)
    → Follows u on (if b then v else w)
Follows-if u on true v w h k = h refl
Follows-if u on false v w h k = k refl

letter-not-space : (c x : ℕ) → 32 < tolower c → tolower c ≡ tolower x → isspace x ≡ false
unfolding tolower isspace
letter-not-space c x h e = ground arith

not_continued :
    (buf : Bytes) (c : ℕ) (f : Bytes) (before : Bool)
    → 32 < tolower c
    → check_header buf (c ∷ f) ≡ true
    → false ≡ (before && isspace (char buf))
unfolding check_header
not_continued buf c f before h e =
    let s = letter-not-space c (char buf) h (strncasecmp-char (c ∷ f) buf (length f) e) in
    ground arith

not_space : (r b : Bool) → not b ≡ true → false ≡ (r && b)
not_space r b e = ground arith

on_space : (r b : Bool) → not b ≡ false → r ≡ (r && b)
on_space r b e = ground arith

module _ (y : Yasl) where
  response_suppress-Follows :
      (u s : Scan)
      → s.rcpt_hdrs ≡ u.rcpt_hdrs
      → s.buf ≡ u.buf
      → (on : Bool) → is_recipient s.state ≡ on
      → Follows u on (response_suppress y s)
  unfolding response_suppress
  response_suppress-Follows u s p q on r =
      Follows-if u on _ suppress (go s) (λ _. refuses) (λ _. follows p q r)

  -- A line that begins no recipient header.
  classify-Follows :
      (u : Scan)
      → CannotBreak u.buf
      → check_header u.buf (codes "Cc:") ≡ false
      → check_header u.buf (codes "To:") ≡ false
      → Follows u (is_recipient u.state && isspace (char u.buf)) (classify y u)
  unfolding classify tolower
  classify-Follows u h c t =
      let r = is_recipient u.state in
      let b = isspace (char u.buf) in
      let on = r && b in
      let keyword = λ (d : ℕ) (f : Bytes) (w : 32 < tolower d). not_continued u.buf d f r w in
      rw (h.0, h.1, c, t)
        (Follows-if u on _ (go _) _
          (λ e. follows refl refl (keyword b'M' (codes "essage-ID:") (omega arith) e))
          λ _.
            Follows-if u on _ (go _) _
              (λ e. follows refl refl (keyword b'R' (codes "eferences:") (omega arith) e))
              λ _.
                Follows-if u on _ (go _) _
                  (λ e. follows refl refl (keyword b'I' (codes "n-Reply-To:") (omega arith) e))
                  λ _.
                    Follows-if u on (check_header u.buf (codes "List-")) suppress _ (λ _. refuses)
                      λ _.
                        Follows-if u on _ _ _
                          (λ e.
                            response_suppress-Follows u _ refl refl on
                              (keyword b'X' (codes "-Auto-Response-Suppress:") (omega arith) e))
                          λ _.
                            Follows-if u on _ (go _) _
                              (λ e.
                                follows refl refl (keyword b'S' (codes "ubject:") (omega arith) e))
                              λ _.
                                Follows-if u on (not b) (go _) (go u)
                                  (λ e. follows refl refl (not_space r b e))
                                  (λ e. follows refl refl (on_space r b e)))

  classify-Cc :
      (u : Scan)
      → check_header u.buf (codes "Cc:") ≡ true
      → classify y u ≡ go (record u { state = recipient })
  unfolding classify tolower
  classify-Cc u h =
      let other = λ (d : ℕ) (g : Bytes). check_header_other u.buf b'C' d (codes "c:") g h in
      rw (
        other b'M' (codes "essage-ID:") (omega arith),
        other b'R' (codes "eferences:") (omega arith),
        other b'I' (codes "n-Reply-To:") (omega arith),
        other b'A' (codes "uto-Submitted:") (omega arith),
        other b'L' (codes "ist-") (omega arith),
        other b'P' (codes "recedence") (omega arith),
        other b'X' (codes "-Auto-Response-Suppress:") (omega arith),
        h,
      )

  classify-To :
      (u : Scan)
      → check_header u.buf (codes "To:") ≡ true
      → classify y u ≡ go (record u { state = recipient })
  unfolding classify tolower
  classify-To u h =
      let other = λ (d : ℕ) (g : Bytes). check_header_other u.buf b'T' d (codes "o:") g h in
      rw (
        other b'M' (codes "essage-ID:") (omega arith),
        other b'R' (codes "eferences:") (omega arith),
        other b'I' (codes "n-Reply-To:") (omega arith),
        other b'A' (codes "uto-Submitted:") (omega arith),
        other b'L' (codes "ist-") (omega arith),
        other b'P' (codes "recedence") (omega arith),
        other b'X' (codes "-Auto-Response-Suppress:") (omega arith),
        other b'C' (codes "c:") (omega arith),
        h,
      )

  -- Every line, in terms of its own bytes.
  pub classify-belongs :
      (l : Bytes) (s : Scan)
      → IsLine l
      → CannotBreak l
      → Follows (with_line l s) (belongs (is_recipient s.state) l) (classify y (with_line l s))
  classify-belongs [] s h k = absurd (h.0 refl)
  classify-belongs (a ∷ l) s h k =
      let u = with_line (a ∷ l) s in
      let cc' = check_header-line (codes "Cc:") (a ∷ l) s (omega arith) in
      let to = check_header-line (codes "To:") (a ∷ l) s (omega arith) in
      elim (Bool-cases (check_header (a ∷ l) (codes "Cc:"))) [
        | inl c ↦ rw (classify-Cc u (cc' ∙ c), c) (follows refl refl refl)
        | inr c ↦ elim (Bool-cases (check_header (a ∷ l) (codes "To:"))) [
          | inl t ↦ rw (classify-To u (to ∙ t), c, t) (follows refl refl refl)
          | inr t ↦
              rw (c, t)
                (unfold fill in
                  classify-Follows u
                    (
                      check_header-line (codes "Auto-Submitted:") (a ∷ l) s (omega arith) ∙ k.0,
                      check_header-line (codes "Precedence") (a ∷ l) s (omega arith) ∙ k.1,
                    )
                    (cc' ∙ c) (to ∙ t))
        ]
      ]
