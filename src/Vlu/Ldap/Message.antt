-- ===== src/Vlu/Ldap/Message.antt =====
-- What ldap_vlu_message makes of the values of an attribute.
use simvacation.Common.{
  ℕ, ◌≡◌, refl, sym, ap, ◌∙◌, Option, none, some, List, [], ◌∷◌, ◌++◌, map, append_assoc,
  append-nil, Bytes, codes, ◌==◌, if◌then◌else◌, length, take-all, arith,
}
use simvacation.Yasl.{Yasl, mapped}
use simvacation.Config.{yaslauto}
use simvacation.Vlu.Directory.{Directory}
use simvacation.Vlu.Ldap.{VluLdap, cat_values, message_of, ldap_vlu_message}

abbrev newline_for_dollar : ℕ → ℕ
newline_for_dollar c = if c == b'$' then b'\n' else c

abbrev joined : List Bytes → Bytes
joined [] = []
joined (bv ∷ rest) = bv ++ joined rest

-- The values one after the other, with a new line for each `$`; the default where there are none.
abbrev pub spoken : Bytes → Option (Bytes × List Bytes) → Bytes
spoken otherwise none = otherwise
spoken otherwise (some (bv, rest)) = map newline_for_dollar (joined (bv ∷ rest))

cat_values-joined :
    (d : Directory) (y : Yasl) (s : Bytes) (values : List Bytes)
    → cat_values d y s values ≡ s ++ joined values
unfolding cat_values
cat_values-joined d y s [] = sym (append-nil s)
cat_values-joined d y s (bv ∷ rest) =
    cat_values-joined d y (y.yaslcatlen s bv (length bv)) rest
    ∙ ap (λ t. t ++ joined rest)
        (y.catlen_append s bv (length bv)
          ∙ ap (λ t. s ++ t) (take-all (length bv) bv (omega arith)))
    ∙ append_assoc s bv (joined rest)

mapped-newline : (s : Bytes) → map (mapped (codes "$") (codes "\n") 1) s ≡ map newline_for_dollar s
mapped-newline [] = refl
mapped-newline (c ∷ s) = ap (◌∷◌ (newline_for_dollar c)) (mapped-newline s)

module _ (d : Directory) where
  message_of-spoken :
      (y : Yasl) (otherwise : Bytes) (o : Option (Bytes × List Bytes))
      → message_of d y otherwise o ≡ spoken otherwise o
  unfolding message_of
  message_of-spoken y otherwise none = refl
  message_of-spoken y otherwise (some (bv, rest)) =
      y.mapchars_each _ _ _ 1
      ∙ ap (map (mapped (codes "$") (codes "\n") 1)) (cat_values-joined d y [] (bv ∷ rest))
      ∙ mapped-newline (joined (bv ∷ rest))

  pub ldap_vlu_message-spoken :
      (y : Yasl) (vlu : VluLdap d) (attr : Bytes)
      → vlu.attr_msg ≡ some attr
      → ldap_vlu_message d y vlu
        ≡ some (spoken vlu.default_msg (d.ldap_get_values_len vlu.ld vlu.result attr))
  unfolding ldap_vlu_message
  ldap_vlu_message-spoken y vlu attr h =
      ap (λ m. some m) (message_of-spoken y vlu.default_msg _)
      ∙ ap
          (λ a.
            some (spoken vlu.default_msg (d.ldap_get_values_len vlu.ld vlu.result (yaslauto a))))
          h
