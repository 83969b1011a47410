-- ===== src/Policy/SeedTests.antt =====
-- Runs of seed_policy.py.
use dlp_server.Base.{◌≡◌, refl, true, false, none, some, [], ◌∷◌}
use dlp_server.Base.Str.{str, eq}
use dlp_server.Policy.Tables.{Engine, active_version}
use dlp_server.Policy.Seed.{
  Spec, norm, rule_columns, override_columns, insert_rule, insert_override, insert_all,
  insert_rules, insert_overrides, insert_default, new_version, seed, truncated, seeded,
  seed_committed, main,
}
use dlp_server.Policy.Loaded.{IsScan}
use dlp_server.Policy.Ended.{Ended, main-Ended}

-- a database that accepts every row, and gives the rows as they stand
abbrev plain : Engine
plain = record {
  accepts_rule = λ r. true;
  accepts_override = λ o. true;
  scan_versions = λ vs. vs;
  scan_rules = λ rs. rs;
  scan_overrides = λ os. os;
}

plain-IsScan : IsScan plain
plain-IsScan = record {
  versions = λ v vs. (λ m. m, λ m. m);
  rules = λ r rs. (λ m. m, λ m. m);
  overrides = λ o os. (λ m. m, λ m. m);
}

-- two rules of policy.yaml, its default and one of its overrides
abbrev small_spec : Spec
small_spec = record {
  rules =
      record {
        purpose = some (str "doc_summarize");
        role = some (str "*");
        entity = some (str "CARD");
        action = some (str "block");
        priority = none;
      }
      ∷ record {
        purpose = some (str "code_help");
        role = some (str "*");
        entity = some (str "*");
        action = some (str "block");
        priority = none;
      }
      ∷ [];
  default_action = some (str "tokenize");
  risk_overrides =
      record { when = some (str "injection.hit"); action = some (str "block"); priority = none }
      ∷ [];
}

main_seeds : (main plain false small_spec truncated).0 ≡ seeded 1
unfolding main seed_committed seed insert_rules insert_all insert_rule insert_default
    insert_overrides insert_override rule_columns override_columns new_version norm active_version
    eq
main_seeds = refl

main-Ended_example : Ended plain true small_spec truncated (main plain true small_spec truncated)
main-Ended_example =
    main-Ended plain plain-IsScan true small_spec truncated (record { rules = tt; overrides = tt })
