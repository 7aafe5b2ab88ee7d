-- ===== src/Tests/Rabin.antt =====
-- A fingerprint, and the remainder that it is.
use simvacation.Common.{◌≡◌, refl, codes, arith}
use simvacation.Rabin.{rabin_fingerprint}
use simvacation.Rabin.Field.{remainder}
use simvacation.Rabin.Fingerprint.{rabin_fingerprint-remainder}

fingerprint_runs : rabin_fingerprint (codes "foo@example.com") ≡ 7534329053045629654
unfolding rabin_fingerprint
fingerprint_runs = refl

rabin_fingerprint-remainder_example :
    rabin_fingerprint (codes "foo@example.com") ≡ remainder 0 (codes "foo@example.com")
rabin_fingerprint-remainder_example =
    rabin_fingerprint-remainder (codes "foo@example.com") (omega arith)
