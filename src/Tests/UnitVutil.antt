-- ===== src/Tests/UnitVutil.antt =====
-- Every case of test/unit_vutil.c.
use simvacation.Common.{◌≡◌, refl, true, false, none, some, Bytes, codes}
use simvacation.CString.{strncasecmp, strchr, strrchr, strstr, memcmp, tolower}
use simvacation.Sender.{canon_from, check_from}
use simvacation.Substring.{is_substring}
use simvacation.Tests.Model.{model}

-- `assert_string_equal(canon_from(yaslauto(from)), to)`
abbrev Becomes : Bytes → Bytes → Type 0
Becomes from to = canon_from model from ≡ to

-- `assert_null(check_from(yaslauto(from)))`
abbrev Refused : Bytes → Type 0
Refused from = check_from model from ≡ none

test_is_substring :
    (is_substring model (codes "foo") (codes "foobar") false ≡ true)
    × (is_substring model (codes "Foo") (codes "fOo") false ≡ true)
    × (is_substring model (codes "foo bar baz") (codes "foo.bar_baz") false ≡ false)
    × (is_substring model (codes "foo bar baz") (codes "foo.bar_baz") true ≡ true)
unfolding is_substring strstr memcmp tolower
test_is_substring = (refl, refl, refl, refl)

test_canon_from_noop :
    Becomes (codes "foo@example.com") (codes "foo@example.com")
    × Becomes (codes "\"foo bar\"@example.com") (codes "\"foo bar\"@example.com")
unfolding canon_from strncasecmp strchr strrchr strstr memcmp tolower
test_canon_from_noop = (refl, refl)

test_canon_from_srs0 :
    Becomes
      (codes "SRS0=gfkgj=fp=subdomain.example.edu=foo@example.edu")
      (codes "foo@subdomain.example.edu")
    × Becomes
        (codes "SRS0+gfkgj=fp=subdomain.example.edu=foo@example.edu")
        (codes "foo@subdomain.example.edu")
    × Becomes
        (codes "SRS0-gfkgj=fp=subdomain.example.edu=foo@example.edu")
        (codes "foo@subdomain.example.edu")
    × Becomes
        (codes "\"SRS0=gfkgj=fp=subdomain.example.edu=foo bar\"@example.edu")
        (codes "\"foo bar\"@subdomain.example.edu")
    × Becomes
        (codes "SRS0=thisisreallyanopaquestring@example.edu")
        (codes "SRS0=thisisreallyanopaquestring@example.edu")
    × Becomes
        (codes "\"SRS0=this is really an opaque string\"@example.edu")
        (codes "\"SRS0=this is really an opaque string\"@example.edu")
unfolding canon_from strncasecmp strchr strrchr strstr memcmp tolower
test_canon_from_srs0 = (refl, refl, refl, refl, refl, refl)

test_canon_from_srs1 :
    Becomes
      (codes "SRS1=re2xz=example.com==gfkgj=fp=subdomain.example.edu=foo@example.edu")
      (codes "foo@subdomain.example.edu")
    × Becomes
        (codes "SRS1+re2xz=example.com==gfkgj=fp=subdomain.example.edu=foo@example.edu")
        (codes "foo@subdomain.example.edu")
    × Becomes
        (codes "SRS1-re2xz=example.com==gfkgj=fp=subdomain.example.edu=foo@example.edu")
        (codes "foo@subdomain.example.edu")
    × Becomes
        (codes "SRS1=re2xz=example.com=+gfkgj=fp=subdomain.example.edu=foo@example.edu")
        (codes "foo@subdomain.example.edu")
    × Becomes
        (codes "SRS1=re2xz=example.com=-gfkgj=fp=subdomain.example.edu=foo@example.edu")
        (codes "foo@subdomain.example.edu")
unfolding canon_from strncasecmp strchr strrchr strstr memcmp tolower
test_canon_from_srs1 = (refl, refl, refl, refl, refl)

test_canon_from_batv :
    Becomes (codes "prvs=somehash=foo@example.com") (codes "foo@example.com")
    × Becomes (codes "prvs=notreally@example.com") (codes "prvs=notreally@example.com")
unfolding canon_from strncasecmp strchr strrchr strstr memcmp tolower
test_canon_from_batv = (refl, refl)

test_canon_from_barracuda :
    Becomes (codes "btv1==somehash==foo@example.com") (codes "foo@example.com")
    × Becomes (codes "btv1==notreally@example.com") (codes "btv1==notreally@example.com")
unfolding canon_from strncasecmp strchr strrchr strstr memcmp tolower
test_canon_from_barracuda = (refl, refl)

test_check_from_noop : check_from model (codes "foo@example.com") ≡ some (codes "foo@example.com")
unfolding check_from strncasecmp strchr strrchr strstr memcmp tolower
test_check_from_noop = refl

test_check_from_simta_group :
    Refused (codes "foo-errors@example.com")
    × Refused (codes "\"foo foo-errors\"@example.com")
    × (check_from model (codes "errors@example.com") ≡ some (codes "errors@example.com"))
unfolding check_from strncasecmp strchr strrchr strstr memcmp tolower
test_check_from_simta_group = (refl, refl, refl)

test_check_from_mailsystem :
    Refused (codes "postmaster@example.com")
    × Refused (codes "mailer-daemon@example.com")
    × Refused (codes "foo-request@example.com")
    × Refused (codes "mailer@example.com")
    × Refused (codes "foo-relay@example.com")
unfolding check_from strncasecmp strchr strrchr strstr memcmp tolower
test_check_from_mailsystem = (refl, refl, refl, refl, refl)
