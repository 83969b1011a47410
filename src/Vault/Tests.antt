-- ===== src/Vault/Tests.antt =====
-- Runs of vault.py over the samples.
use dlp_server.Base.{
  ℕ, List, ◌∷◌, ◌⊎◌, ◌≢◌, ◌<◌, ◌+◌, ◌≤◌, ◌≡◌, refl, true, none, some, [], ◌++◌, ok, All, Member,
  inl, arith, ap, absurd_test,
}
use dlp_server.Base.Str.{Str, str, eq, contains, lookup}
use dlp_server.Base.Unicode.{ascii, strip, lstrip, upper}
use dlp_server.Vault.Rows.{Row, Db, Access, select_label, count, is_active}
use dlp_server.Vault.Label.{token_label, print_nat, digits_onto}
use dlp_server.Vault.Crypto.{coerce_session_uuid, hash, encrypt, decrypt}
use dlp_server.Vault.Tokenize.{
  normalize_entity_type, entity_types, tokenize, tokenize_between, tokenize_locked,
}
use dlp_server.Vault.Detokenize.{detokenize, log_access, scope_allows, axis, axis_allows}
use dlp_server.Vault.Lifetime.{day, revoke_session, purge_expired}
use dlp_server.Vault.Numbering.{HasUniqueLabels}
use dlp_server.Vault.Reach.{here, next, tokenized, detokenized, revoked, Reach-HasUniqueLabels}
use dlp_server.Vault.Restore.{
  IsGranted, LogsOne, IsUnopened, detokenize-IsGranted, detokenize_restores, detokenize_logs,
}
use dlp_server.Vault.Tokens.{tokenize_stable, detokenize-tokenize}
use dlp_server.Vault.Cleanup.{detokenize-revoke_session, purge_expired_exact}
use dlp_server.Vault.Reuse.{IsAged, tokenize-purge_reuses}
use dlp_server.Vault.Samples.{
  plain, closed, twelve, open_scope, kim, lee, empty, two, plain-IsFaithful, two-IsNumbered,
}

first_label :
    (tokenize plain true 0 600 twelve (str "s") (str " name") (str "kim") (some open_scope) empty).0
    ≡ ok (str "<PII:NAME:1>")
unfolding tokenize tokenize_between tokenize_locked normalize_entity_type entity_types contains eq
    strip lstrip upper coerce_session_uuid hash select_label count encrypt token_label print_nat
    digits_onto
first_label = refl

-- a third value is tokenised, a token is turned back, and the session ends
abbrev third : Db
third =
    (tokenize_locked plain 0 600 twelve (str "s") (normalize_entity_type (str "NAME")) (str "park")
      open_scope two).1

abbrev turned_back : Db
turned_back = (detokenize plain true 7 (str "s") (str "<PII:NAME:2>") none none third).1

abbrev ended : Db
ended = revoke_session plain true 8 (str "s") turned_back

Reach-HasUniqueLabels_example : HasUniqueLabels ended.rows
Reach-HasUniqueLabels_example = Reach-HasUniqueLabels plain two ended two-IsNumbered (
    next
      (next (next here (tokenized 0 600 twelve (str "s") (str "NAME") (str "park") open_scope two))
        (detokenized true 7 (str "s") (str "<PII:NAME:2>") none none third))
      (revoked true 8 (str "s") turned_back))

kim_shown :
    (detokenize plain true 7 (str "s") (str "<PII:NAME:2>") (some (str "HR")) none two).0
    ≡ some (str "kim")
unfolding detokenize coerce_session_uuid scope_allows axis axis_allows contains lookup eq decrypt
kim_shown = refl

two-HasUniqueLabels : HasUniqueLabels two.rows
unfolding eq
two-HasUniqueLabels =
    (((λ _ e. absurd_test refl (ap (λ l. eq l (str "<PII:NAME:1>")) e)), tt), (tt, tt))

detokenize-IsGranted_example :
    (row : Row) × IsGranted plain true 7
      (str "s")
      (str "<PII:NAME:2>")
      (some (str "HR"))
      none
      two
      (str "kim")
      row
detokenize-IsGranted_example =
    detokenize-IsGranted plain true 7 (str "s") (str "<PII:NAME:2>") (some (str "HR")) none two
      (str "kim") kim_shown

detokenize_restores_example :
    detokenize plain true 7 (str "s") (str "<PII:NAME:2>") (some (str "HR")) none two ≡ (
      some (str "kim"),
      log_access plain (some 2) (str "s") (str "<PII:NAME:2>") (some (str "HR")) none true none two,
    )
unfolding coerce_session_uuid scope_allows axis axis_allows contains lookup eq decrypt
detokenize_restores_example =
    detokenize_restores plain true 7 (str "s") (str "<PII:NAME:2>") (some (str "HR")) none two
      (str "kim") kim refl two-HasUniqueLabels (inl refl) refl (omega arith) refl refl

-- the key is gone
detokenize_logs_example :
    ((a : Access) × LogsOne closed 7
        (str "s")
        (str "<PII:NAME:2>")
        none
        none
        two
        (detokenize closed true 7 (str "s") (str "<PII:NAME:2>") none none two)
        a)
    ⊎ ((row : Row) × IsUnopened closed 7
          (str "s")
          (str "<PII:NAME:2>")
          none
          none
          two
          (detokenize closed true 7 (str "s") (str "<PII:NAME:2>") none none two)
          row)
detokenize_logs_example = detokenize_logs closed 7 (str "s") (str "<PII:NAME:2>") none none two

tokenize_stable_example :
    tokenize plain true 9 600 []
      (str "s")
      (str " name")
      (str "kim")
      none
      (tokenize plain true 0 600 twelve
        (str "s")
        (str " name")
        (str "kim")
        (some open_scope)
        empty).1
    ≡ (
      ok (str "<PII:NAME:1>"),
      (tokenize plain true 0 600 twelve
          (str "s")
          (str " name")
          (str "kim")
          (some open_scope)
          empty).1,
    )
tokenize_stable_example =
    tokenize_stable plain 600 (str "s") (str " name") (str "kim") 0 9 twelve [] (some open_scope)
      none empty (str "<PII:NAME:1>") first_label

detokenize-tokenize_example :
    (label : Str) × ((tokenize plain true 0 600 twelve
        (str "s")
        (str "NAME")
        (str "park")
        (some open_scope)
        two).0
      ≡ ok label)
    × ((detokenize plain true 7
          (str "s")
          label
          (some (str "HR"))
          none
          (tokenize plain true 0 600 twelve
            (str "s")
            (str "NAME")
            (str "park")
            (some open_scope)
            two).1).0
        ≡ some (str "park"))
unfolding coerce_session_uuid hash select_label scope_allows axis axis_allows contains lookup eq
    normalize_entity_type entity_types strip lstrip upper
detokenize-tokenize_example =
    detokenize-tokenize plain 600 (str "s") (str "NAME") (str "park") 0 7 twelve (some open_scope)
      (some (str "HR")) none two plain-IsFaithful refl refl two-IsNumbered refl (omega arith) refl

detokenize-revoke_session_example :
    ((detokenize plain true 9
        (str "s")
        (str "<PII:NAME:2>")
        (some (str "HR"))
        none
        (revoke_session plain true 8 (str "s") two)).0
      ≡ none)
    × ((other : Str)
        → coerce_session_uuid plain (str "s") ≢ coerce_session_uuid plain other
        → (detokenize plain true 9 other
            (str "<PII:NAME:2>")
            (some (str "HR"))
            none
            (revoke_session plain true 8 (str "s") two)).0
          ≡ (detokenize plain true 9 other (str "<PII:NAME:2>") (some (str "HR")) none two).0)
detokenize-revoke_session_example =
    detokenize-revoke_session plain true 8 9 (str "s") (str "<PII:NAME:2>") (some (str "HR")) none
      two

abbrev purged : List Row
purged = (purge_expired true 100000000000 two).rows

purge_expired_exact_example :
    All (λ r. is_active r ≡ true → 100000000000 ≤ r.expires_at) purged
    × All (λ r. (t : ℕ) → r.revoked_at ≡ some t → 100000000000 ≤ t + day) purged
    × ((r : Row)
        → Member r two.rows
        → (is_active r ≡ true → 100000000000 ≤ r.expires_at → Member r purged)
          × (is_active r ≡ true
              → r.expires_at < 100000000000
              → Member (record r { revoked_at = some 100000000000 }) purged)
          × ((t : ℕ) → r.revoked_at ≡ some t → 100000000000 ≤ t + day → Member r purged))
purge_expired_exact_example = purge_expired_exact 100000000000 two

aged : IsAged (str "s") (str "NAME") 100000000000 kim (lee ∷ [])
unfolding count eq
aged = record {
  numbered = two-IsNumbered;
  session_of = refl;
  type_of = refl;
  active = refl;
  unexpired = omega arith;
  one_stale = refl;
}

tokenize-purge_reuses_example :
    Member kim (purge_expired true 100000000000 two).rows
    × ((tokenize plain true 100000000001 600 twelve
          (str "s")
          (str "NAME")
          (str "park")
          (some open_scope)
          (purge_expired true 100000000000 two)).0
        ≡ ok (str "<PII:NAME:2>"))
unfolding coerce_session_uuid hash encrypt normalize_entity_type entity_types contains strip lstrip
    upper eq purge_expired select_label
tokenize-purge_reuses_example =
    tokenize-purge_reuses plain 100000000000 100000000001 600 twelve (str "s") (str "NAME")
      (str "park") (some open_scope) kim (lee ∷ []) two (twelve ++ str "park") aged refl refl refl
