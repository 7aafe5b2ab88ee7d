-- ===== src/Headers/Keywords.antt =====
-- `check_header` on the line in the buffer.
use simvacation.Common.{
  ℕ, suc, ◌≡◌, ◌≢◌, inl, inr, refl, ◌∙◌, sym, true, false, [], ◌∷◌, ◌++◌, Bytes, length, Bool-cases,
}
use simvacation.CString.{tolower, strncasecmp, fill}
use simvacation.CString.Search.{Avoids}
use simvacation.CString.Lines.{strncasecmp-end, strncasecmp-char}
use simvacation.Headers.{Scan, check_header}
use simvacation.Headers.Lines.{with_line}

-- The newline and what stands behind it in the buffer make no difference.
pub check_header-line :
    (f l : Bytes) (s : Scan)
    → Avoids b'\n' f
    → check_header (with_line l s).buf f ≡ check_header l f
unfolding check_header fill
check_header-line f l s h =
    strncasecmp-end f (l ++ b'\n' ∷ []) _ 0 (inl refl) h ∙ strncasecmp-end f l [] b'\n' (inr refl) h

-- A line that begins with one keyword does not begin with one of another first letter.
pub check_header_other :
    (buf : Bytes) (c d : ℕ) (f g : Bytes)
    → check_header buf (c ∷ f) ≡ true
    → tolower c ≢ tolower d
    → check_header buf (d ∷ g) ≡ false
unfolding check_header
check_header_other buf c d f g h ne = elim (Bool-cases (strncasecmp (d ∷ g) buf (suc (length g)))) [
  | inl t ↦ absurd (
      ne (
        strncasecmp-char (c ∷ f) buf (length f) h
        ∙ sym (strncasecmp-char (d ∷ g) buf (length g) t)))
  | inr e ↦ e
]
