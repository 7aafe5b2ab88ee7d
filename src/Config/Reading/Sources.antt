-- ===== src/Config/Reading/Sources.antt =====
-- Where the configuration that is read comes from.
use simvacation.Common.{◌≡◌, ◌↔◌, refl, ap, ◌∙◌, Option, none, some, Bytes, Bool-cases, inl, inr}
use simvacation.Vdb.{VacResult, ok, tempfail, permfail}
use simvacation.Config.{Config}
use simvacation.Config.Ucl.{Ucl}
use simvacation.Config.Reading.{
  merge_file, configured_by, settings_of, read_settings, default_file, read_file, over_base,
  read_vacation_config, Reads, named, present, absent, Configured, base_alone, file_over,
}

module _ (u : Ucl) (files : u.Files) where
  -- What there is to know of the object that is returned.
  abbrev Sources : Option Bytes → u.Object → Type 0
  Sources config_file c = (f : Option Bytes) × Reads u files config_file f × Configured u files c f

  merge_file_ok :
      (base c : u.Object) (o : Option u.Object)
      → merge_file u base o ≡ (ok, some c)
      → (file : u.Object) × (o ≡ some file) × (c ≡ u.ucl_object_merge base file)
  unfolding merge_file
  merge_file_ok base c none h = cc
  merge_file_ok base c (some file) h = (file, refl, cc)

  from_file :
      (base c : u.Object) (f : Bytes)
      → u.ucl_parser_add_string u.simvacation_config_base ≡ some base
      → merge_file u base (u.ucl_parser_add_file files f) ≡ (ok, some c)
      → Configured u files c (some f)
  from_file base c f e h = let (file, g, m) = merge_file_ok base c _ h in file_over e g m

  read_file-Sources :
      (base c : u.Object) (config_file : Option Bytes)
      → u.ucl_parser_add_string u.simvacation_config_base ≡ some base
      → read_file u base config_file files ≡ (ok, some c)
      → Sources config_file c
  unfolding read_file
  read_file-Sources base c (some f) e h = (some f, named, from_file base c f e h)
  read_file-Sources base c none e h = elim (Bool-cases (u.access files (default_file u))) [
    | inl t ↦ (some (default_file u), present t, from_file base c (default_file u) e (rw t at h))
    | inr n ↦ let h = rw n at h in (none, absent n, base_alone (e ∙ ap (λ p. p.1) h))
  ]

  over_base-Sources :
      (o : Option u.Object) (c : u.Object) (config_file : Option Bytes)
      → u.ucl_parser_add_string u.simvacation_config_base ≡ o
      → over_base u o config_file files ≡ (ok, some c)
      → Sources config_file c
  unfolding over_base
  over_base-Sources none c config_file e h = cc
  over_base-Sources (some base) c config_file e h = read_file-Sources base c config_file e h

  Sources-read :
      (c : u.Object) (config_file : Option Bytes)
      → Sources config_file c
      → read_vacation_config u config_file files ≡ (ok, some c)
  unfolding read_vacation_config over_base read_file merge_file
  Sources-read c config_file (some f, named, file_over e g m) = rw (e, g, m) refl
  Sources-read c config_file (some f, present t, file_over e g m) = rw (e, t, g, m) refl
  Sources-read c config_file (none, absent n, base_alone e) = rw (e, n) refl

  -- The configuration is read exactly if the text of the build parses, and the file that is named, or
  -- else the default one where it is there, does too; it is then the first with the second over it,
  -- and the first alone only where no file is named and the default one is not there.
  pub read_vacation_config-Sources :
      (config_file : Option Bytes) (c : u.Object)
      → (read_vacation_config u config_file files ≡ (ok, some c))
        ↔ ((f : Option Bytes) × Reads u files config_file f × Configured u files c f)
  unfolding read_vacation_config
  read_vacation_config-Sources config_file c =
      (λ h. over_base-Sources _ c config_file refl h, λ s. Sources-read c config_file s)

  configured_by-some :
      (p : VacResult × Option u.Object) (config : Config)
      → configured_by u p ≡ some config
      → (c : u.Object) × (p ≡ (ok, some c)) × (settings_of u c ≡ config)
  unfolding configured_by
  configured_by-some (ok, some c) config h = (c, refl, cc)
  configured_by-some (ok, none) config h = cc
  configured_by-some (tempfail, o) config h = cc
  configured_by-some (permfail, o) config h = cc

  pub read_settings-Sources :
      (config_file : Option Bytes) (config : Config)
      → read_settings u config_file files ≡ some config
      → (c : u.Object) × (f : Option Bytes) × Reads u files config_file f
        × Configured u files c f
        × (settings_of u c ≡ config)
  unfolding read_settings
  read_settings-Sources config_file config h =
      let (c, e, s) = configured_by-some _ config h in
      let (f, reads, sources) = (read_vacation_config-Sources config_file c).0 e in
      (c, f, reads, sources, s)
