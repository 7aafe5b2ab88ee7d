-- ===== src/Yasl.antt =====
-- The string library (yasl.c, a copy of another project) as the program calls it: its operations
-- on the bytes of a string, with what its comments promise and its callers rely on as laws.
-- A yasl string is its bytes; `yaslauto`, `yasldup`, `yaslnew` and `yaslfree` copy or drop such a
-- value, `yaslempty` is the empty one, and `yasllen` is its length.
mod Reference
pub mod Trim
pub use Reference.{mapped, trim}
use simvacation.Common.{
  ℕ, zero, suc, ◌+◌, ◌≡◌, Option, List, ◌++◌, map, take, drop, Bytes, ℤ, pos, negsuc,
}
use simvacation.CString.{tolower}

pub record Yasl : Type 0 where
  pub yaslrange : Bytes → ℤ → ℤ → Bytes
  pub yasltolower : Bytes → Bytes
  pub yaslmapchars : Bytes → Bytes → Bytes → ℕ → Bytes
  pub yasltrim : Bytes → Bytes → Bytes
  pub yaslcat : Bytes → Bytes → Bytes
  pub yaslcatyasl : Bytes → Bytes → Bytes
  pub yaslcatlen : Bytes → Bytes → ℕ → Bytes
  -- The second argument is the formatted text.
  pub yaslcatprintf : Bytes → Bytes → Bytes
  -- `NULL` where a quote is not closed or is followed by text.
  pub yaslsplitargs : Bytes → Option (List Bytes)
  -- A negative end counts from the end of the string: -1 is the last byte.
  pub range_suffix : (s : Bytes) (a : ℕ) → yaslrange s (pos a) (negsuc 0) ≡ drop a s
  pub range_prefix : (s : Bytes) (n : ℕ) → yaslrange s (pos 0) (pos n) ≡ take (suc n) s
  pub tolower_each : (s : Bytes) → yasltolower s ≡ map tolower s
  pub mapchars_each :
      (s from to : Bytes) (n : ℕ) → yaslmapchars s from to n ≡ map (mapped from to n) s
  pub trim_ends : (s cset : Bytes) → yasltrim s cset ≡ trim cset s
  pub cat_append : (s t : Bytes) → yaslcat s t ≡ s ++ t
  pub catyasl_append : (s t : Bytes) → yaslcatyasl s t ≡ s ++ t
  pub catlen_append : (s t : Bytes) (n : ℕ) → yaslcatlen s t n ≡ s ++ take n t
  pub catprintf_append : (s t : Bytes) → yaslcatprintf s t ≡ s ++ t
