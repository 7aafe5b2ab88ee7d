-- ===== src/Substring.antt =====
-- vutil.c, `is_substring`: whether a name or a keyword occurs in a header.
pub mod Occurs
use simvacation.Common.{ℕ, Bool, true, false, Option, none, some, if◌then◌else◌, Bytes, codes}
use simvacation.CString.{strstr}
use simvacation.Yasl.{Yasl}

abbrev pub is_found : Option ℕ → Bool
is_found none = false
is_found (some p) = true

module _ (y : Yasl) where
  -- What the needle is looked for in: for a name, `.` and `_` are blanks.
  pub haystack : Bytes → Bool → Bytes
  haystack h name =
      let low = y.yasltolower h in
      if name then y.yaslmapchars low (codes "._") (codes "  ") 2 else low

  unfoldable pub is_substring : Bytes → Bytes → Bool → Bool
  unfolding haystack
  is_substring n h name = is_found (strstr (haystack h name) (y.yasltolower n))
