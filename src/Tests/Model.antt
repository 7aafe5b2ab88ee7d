-- ===== src/Tests/Model.antt =====
-- A string library that meets the laws of `Yasl`, to run the code with.
use simvacation.Common.{
  ℕ, suc, ◌-◌, ◌≡◌, refl, some, List, [], ◌∷◌, ◌++◌, map, take, take-all, drop, length, length-drop,
  Bytes, ℤ, pos, negsuc, arith, ◌==◌, if◌then◌else◌,
}
use simvacation.CString.{tolower}
use simvacation.Yasl.{Yasl, mapped, trim}

abbrev index : Bytes → ℤ → ℕ
index s (pos n) = n
index s (negsuc n) = length s - suc n

abbrev range : Bytes → ℤ → ℤ → Bytes
range s start end = take (suc (index s end) - index s start) (drop (index s start) s)

pub suffix_law : (s : Bytes) (a : ℕ) → range s (pos a) (negsuc 0) ≡ drop a s
suffix_law s a = take-all _ (drop a s) (omega (arith, length-drop a s))

pub prefix_law : (s : Bytes) (n : ℕ) → range s (pos 0) (pos n) ≡ take (suc n) s
prefix_law s n = let e : suc n - 0 ≡ suc n = omega arith in rw e

-- Words between single blanks.
unfoldable pub split_onto : Bytes → Bytes → List Bytes
split_onto word [] = word ∷ []
split_onto word (c ∷ s) =
    let rest = split_onto [] s in
    let more = split_onto (word ++ c ∷ []) s in if c == b' ' then word ∷ rest else more

abbrev pub model : Yasl
model = record {
  yaslrange = range;
  yasltolower = map tolower;
  yaslmapchars = λ s from to n. map (mapped from to n) s;
  yasltrim = λ s cset. trim cset s;
  yaslcat = λ s t. s ++ t;
  yaslcatyasl = λ s t. s ++ t;
  yaslcatlen = λ s t n. s ++ take n t;
  yaslcatprintf = λ s t. s ++ t;
  yaslsplitargs = λ s. some (split_onto [] s);
  range_suffix = suffix_law;
  range_prefix = prefix_law;
  tolower_each = λ s. refl;
  mapchars_each = λ s from to n. refl;
  trim_ends = λ s cset. refl;
  cat_append = λ s t. refl;
  catyasl_append = λ s t. refl;
  catlen_append = λ s t n. refl;
  catprintf_append = λ s t. refl;
}
