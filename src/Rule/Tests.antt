-- ===== src/Rule/Tests.antt =====
-- The rule engine and the fingerprint at a concrete rule and entries.
use congraph_log_watcher.Common.{◌≡◌, ◌↔◌, [], ◌∷◌, arith}
use congraph_log_watcher.Entry.{raw_or_message}
use congraph_log_watcher.Samples.{plain_regexp, sample_rule, sample_entry}
use congraph_log_watcher.Rule.Matcher.{match_rules}
use congraph_log_watcher.Rule.Matcher.Engine.{Matched, match_rules_lem}
use congraph_log_watcher.Rule.Fingerprint.{fingerprint, fingerprint_parts}
use congraph_log_watcher.Rule.Fingerprint.Identity.{fingerprint-identity, identity}

match_rules_example :
    Matched plain_regexp
      (sample_entry 1)
      (sample_rule ∷ sample_rule ∷ [])
      (match_rules plain_regexp (sample_rule ∷ sample_rule ∷ []) (sample_entry 1))
match_rules_example = match_rules_lem plain_regexp (sample_entry 1) (sample_rule ∷ sample_rule ∷ [])

fingerprint-identity_example :
    (fingerprint plain_regexp (λ t. t) sample_rule (sample_entry 1)
      ≡ fingerprint plain_regexp (λ t. t) sample_rule (sample_entry 2))
    ↔ (identity plain_regexp sample_rule (sample_entry 1)
        ≡ identity plain_regexp sample_rule (sample_entry 2))
unfolding fingerprint_parts raw_or_message
fingerprint-identity_example =
    fingerprint-identity plain_regexp (λ t. t) sample_rule sample_rule (sample_entry 1)
      (sample_entry 2) (λ h. h)
      (
        omega arith,
        (
          omega arith,
          (
            omega arith,
            (omega arith, (omega arith, (omega arith, (omega arith, (omega arith, tt))))),
          ),
        ),
      )
      (
        omega arith,
        (
          omega arith,
          (
            omega arith,
            (omega arith, (omega arith, (omega arith, (omega arith, (omega arith, tt))))),
          ),
        ),
      )
