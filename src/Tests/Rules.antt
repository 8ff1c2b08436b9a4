-- ===== src/Tests/Rules.antt =====
-- Access rules at concrete paths.
use libshv.Base.{◌≢◌, ap, arith, length, length-append, Str, ◌≡◌, ◌↔◌, ◌⊎◌, true, [], codes, ◌++◌}
use libshv.Path.Prefix.{IsAbove}
use libshv.Broker.Rule.{
  AccessRule, stars, is_path_method_match, is_path_method_match-subtree, is_path_method_match-exact,
}

is_path_method_match-subtree_example :
    (is_path_method_match
        (record { path = codes "a" ++ stars; method = codes "get"; access = codes "rd" })
        (codes "a/b")
        (codes "get")
      ≡ true)
    ↔ (IsAbove (codes "a") (codes "a/b") × ((codes "get" ≡ []) ⊎ (codes "get" ≡ codes "get")))
is_path_method_match-subtree_example =
    is_path_method_match-subtree (codes "a") (codes "get") (codes "rd") (codes "a/b") (codes "get")

-- A rule for the path "a" alone.
abbrev exact_rule : AccessRule
exact_rule = record { path = codes "a"; method = codes "get"; access = codes "rd" }

exact_rule-short : exact_rule.path ≢ codes "**"
exact_rule-short h = cc

exact_rule-plain : (base : Str) → exact_rule.path ≢ base ++ stars
exact_rule-plain base h = absurd (omega (arith, ap length h, length-append base stars))

is_path_method_match-exact_example :
    (is_path_method_match exact_rule (codes "a") (codes "get") ≡ true)
    ↔ ((codes "a" ≡ codes "a") × ((codes "get" ≡ []) ⊎ (codes "get" ≡ codes "get")))
is_path_method_match-exact_example =
    is_path_method_match-exact exact_rule (codes "a") (codes "get") exact_rule-short
      exact_rule-plain
