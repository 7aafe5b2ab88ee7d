-- ===== src/CString.antt =====
-- The functions of the C library that the program calls on strings, in the C locale.
-- A string is the list of its bytes; the end of the list reads as the terminating NUL, and a NUL
-- inside the list (a buffer) ends the string there. A pointer into a string is an offset.
pub mod Search
pub mod Lines
pub mod Print
pub mod Number
pub mod Ends
use simvacation.Common.{
  ℕ, zero, suc, ◌+◌, ◌-◌, Bool, true, false, ◌&&◌, ◌||◌, Option, none, some, List, [], ◌∷◌, leb,
  ◌==◌, if◌then◌else◌, Bytes, ◌++◌, length, drop,
}
use mathlib.Core.Option

-- `*s`
abbrev pub char : Bytes → ℕ
char [] = 0
char (c ∷ s) = c

-- `s + 1`
abbrev pub next : Bytes → Bytes
next [] = []
next (c ∷ s) = s

-- What a C string function sees of a buffer: the bytes in front of the first NUL.
abbrev pub cstr : Bytes → Bytes
cstr [] = []
cstr (c ∷ s) = if c == 0 then [] else c ∷ cstr s

unfoldable pub tolower : ℕ → ℕ
tolower c = if leb b'A' c && leb c b'Z' then c + 32 else c

unfoldable pub isspace : ℕ → Bool
isspace c = c == b' ' || (leb 9 c && leb c 13)

-- `strncasecmp(s, t, n) == 0`
unfoldable pub strncasecmp : Bytes → Bytes → ℕ → Bool
strncasecmp s t zero = true
strncasecmp s t (suc n) =
    let rest = strncasecmp (next s) (next t) n in
    if tolower (char s) == tolower (char t) then (if char s == 0 then true else rest) else false

-- `strcasecmp(s, t) == 0`, on strings with no NUL inside
unfoldable pub strcasecmp : Bytes → Bytes → Bool
strcasecmp [] t = char t == 0
strcasecmp (c ∷ s) t = tolower c == tolower (char t) && strcasecmp s (next t)

-- `strchr(s, c)` and `index(s, c)` for `c` other than NUL: the offset of the first `c`
unfoldable pub strchr : Bytes → ℕ → Option ℕ
strchr [] c = none
strchr (d ∷ s) c =
    let rest = strchr s c in if d == 0 then none else if d == c then some 0 else Option.map suc rest

-- `strrchr(s, c)`: the offset of the last `c`
later_or : Option ℕ → Bool → Option ℕ
later_or (some p) here = some (suc p)
later_or none true = some 0
later_or none false = none

unfoldable pub strrchr : Bytes → ℕ → Option ℕ
unfolding later_or
strrchr [] c = none
strrchr (d ∷ s) c = let rest = strrchr s c in if d == 0 then none else later_or rest (d == c)

-- `memcmp(n, s, strlen(n)) == 0`, where `s` is at least as long
unfoldable pub memcmp : Bytes → Bytes → Bool
memcmp [] s = true
memcmp (c ∷ n) [] = false
memcmp (c ∷ n) (d ∷ s) = c == d && memcmp n s

-- `strstr(h, n)`, on strings with no NUL inside: the offset of the first occurrence
unfoldable pub strstr : Bytes → Bytes → Option ℕ
unfolding memcmp
strstr [] n = if memcmp n [] then some 0 else none
strstr (c ∷ h) n = let rest = strstr h n in if memcmp n (c ∷ h) then some 0 else Option.map suc rest

-- `while (*s && isspace(*s)) s++`
unfoldable pub skip_spaces : Bytes → Bytes
unfolding isspace
skip_spaces [] = []
skip_spaces (c ∷ s) = let rest = skip_spaces s in if isspace c then rest else c ∷ s

-- `fgets` into a buffer of `k + 1` bytes: the line that it reads, and the input behind it.
unfoldable pub fgets_line : ℕ → Bytes → Bytes
fgets_line zero s = []
fgets_line (suc k) [] = []
fgets_line (suc k) (c ∷ s) = c ∷ (if c == b'\n' then [] else fgets_line k s)

unfoldable pub fgets_rest : ℕ → Bytes → Bytes
fgets_rest zero s = s
fgets_rest (suc k) [] = []
fgets_rest (suc k) (c ∷ s) = if c == b'\n' then s else fgets_rest k s

-- The buffer after `fgets` has put a line and a NUL into it: what stood behind them stays.
unfoldable pub fill : Bytes → Bytes → Bytes
fill line buf = line ++ 0 ∷ drop (suc (length line)) buf
