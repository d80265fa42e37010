-- ===== src/Prune/Policy/Resolution.antt =====
-- internal/prune/policy.go, Resolve: which policies come out of it.
use podman_api.Common.{
  ℕ, ◌≤◌, ◌≡◌, ◌↔◌, ◌≢◌, refl, ap, ◌∙◌, Bool, true, false, ◌&&◌, ◌||◌, Option, none, List, [], ◌∷◌,
  String, arith, string_eq, if◌then◌else◌, contains, ℤ, pos, negsuc, is_negative, is_above, subst,
  All,
}
use podman_api.Prune.Policy.{
  Policy, PruneConfig, Result, ResolveError, ok, err, ◌>>=◌, resolve, merge, validate, valid_scope,
  check_scopes, reject_or, is_empty,
}

-- Every token is known, and none stands twice.
abbrev pub AreScopes : List String → Type 0
AreScopes [] = Unit {0}
AreScopes (s ∷ scopes) = (valid_scope s ≡ true) × (contains scopes s ≡ false) × AreScopes scopes

-- What a resolved policy is.
pub record IsValid (p : Policy) : Type 0 where
  pub percent : (n : ℕ) × (p.disk_threshold ≡ pos n) × (n ≤ 100)
  pub scopes : AreScopes p.scope
  pub purposeful : p.enabled ≡ true → p.scope ≢ []

in_range : (t : ℤ) → (is_negative t || is_above 100 t) ≡ false → (n : ℕ) × (t ≡ pos n) × (n ≤ 100)
in_range (pos n) h = (n, refl, ground arith)
in_range (negsuc n) h = absurd (ground arith)

range_passes :
    (t : ℤ) → (n : ℕ) × (t ≡ pos n) × (n ≤ 100) → (is_negative t || is_above 100 t) ≡ false
range_passes t h = ap (λ t. is_negative t || is_above 100 t) h.1 ∙ passes h.0 h.2
  where
    passes : (n : ℕ) → n ≤ 100 → (is_negative (pos n) || is_above 100 (pos n)) ≡ false
    passes n b = ground arith

has_purpose :
    (b : Bool) (scopes : List String) → (b && is_empty scopes) ≡ false → b ≡ true → scopes ≢ []
has_purpose b scopes h e n = absurd (ground arith)

purpose_passes :
    (b : Bool) (scopes : List String) → (b ≡ true → scopes ≢ []) → (b && is_empty scopes) ≡ false
purpose_passes false scopes h = refl
purpose_passes true [] h = absurd (h refl refl)
purpose_passes true (s ∷ scopes) h = refl

abbrev AreNew : List String → List String → Type 0
AreNew seen scopes = All (λ x. contains seen x ≡ false) scopes

split_seen :
    (s : String) (seen scopes : List String)
    → AreNew (s ∷ seen) scopes
    → (contains scopes s ≡ false) × AreNew seen scopes
split_seen s seen [] h = (refl, tt)
split_seen s seen (x ∷ scopes) h =
    let (absent, others) = split_seen s seen scopes h.1 in
    (
      ground (arith, absent, h.0, string_eq.same_iff s x, string_eq.same_iff x s),
      (ground (arith, h.0), others),
    )

join_seen :
    (s : String) (seen scopes : List String)
    → contains scopes s ≡ false
    → AreNew seen scopes
    → AreNew (s ∷ seen) scopes
join_seen s seen [] e h = tt
join_seen s seen (x ∷ scopes) e h = (
  ground (arith, e, h.0, string_eq.same_iff s x, string_eq.same_iff x s),
  join_seen s seen scopes (ground (arith, e)) h.1,
)

accepted_step :
    (s : String) (seen scopes : List String)
    → check_scopes seen (s ∷ scopes) ≡ none
    → (valid_scope s ≡ true) × (contains seen s ≡ false) × (check_scopes (s ∷ seen) scopes ≡ none)
unfolding check_scopes
accepted_step s seen scopes h = ground arith

accepted :
    (seen scopes : List String)
    → check_scopes seen scopes ≡ none
    → AreScopes scopes × AreNew seen scopes
accepted seen [] h = (tt, tt)
accepted seen (s ∷ scopes) h =
    let (known, unseen, rest) = accepted_step s seen scopes h in
    let (fine, new) = accepted (s ∷ seen) scopes rest in
    let (absent, others) = split_seen s seen scopes new in ((known, absent, fine), (unseen, others))

accepts :
    (seen scopes : List String)
    → AreScopes scopes
    → AreNew seen scopes
    → check_scopes seen scopes ≡ none
unfolding check_scopes
accepts seen [] h n = refl
accepts seen (s ∷ scopes) h n =
    rw (h.0, n.0) (accepts (s ∷ seen) scopes h.2 (join_seen s seen scopes h.1 n.1))

all_new : (scopes : List String) → AreNew [] scopes
all_new [] = tt
all_new (s ∷ scopes) = (refl, all_new scopes)

err≢ok : (e : ResolveError) (p : Policy) → err e ≢ ok p
err≢ok e p h = absurd (ground arith)

passed :
    (b c : Bool) (o : Option ResolveError) (d e : ResolveError) (p q : Policy)
    → (if b then err d else reject_or o (if c then err e else ok p)) ≡ ok q
    → (b ≡ false) × (o ≡ none) × (c ≡ false) × (p ≡ q)
passed b c o d e p q h = ground arith

validated : (p q : Policy) → validate p ≡ ok q → (p ≡ q) × IsValid p
unfolding validate
validated p q h =
    let (percent, known, purposeful, same) = passed _ _ (check_scopes [] p.scope) _ _ p q h in
    (
      same,
      record {
        percent = in_range p.disk_threshold percent;
        scopes = (accepted [] p.scope known).0;
        purposeful = has_purpose p.enabled p.scope purposeful;
      },
    )

valid_ok : (p : Policy) → IsValid p → validate p ≡ ok p
unfolding validate
valid_ok p v =
    rw
      (
        range_passes p.disk_threshold v.percent,
        accepts [] p.scope v.scopes (all_new p.scope),
        purpose_passes p.enabled p.scope v.purposeful,
      )
      refl

bind_ok : (r : Result Policy) (p : Policy) → ((r >>= validate) ≡ ok p) ↔ ((r ≡ ok p) × IsValid p)
bind_ok (err e) p = (λ h. absurd (err≢ok e p h), λ h. absurd (err≢ok e p h.0))
bind_ok (ok q) p = (
  λ h. let (same, valid) = validated q p h in (ap ok same, subst IsValid same valid),
  λ h. ap (λ r. r >>= validate) h.0 ∙ valid_ok p h.1,
)

-- Resolve gives a policy exactly if that policy is what the configuration merged over the defaults
-- gives and it is valid: its threshold is a percentage, each scope token is known and stands once,
-- and, if enabled, it has a scope.
pub resolve_ok :
    (parse_duration : String → Option ℤ) (hc : Option PruneConfig) (def p : Policy)
    → (resolve parse_duration hc def ≡ ok p) ↔ ((merge parse_duration hc def ≡ ok p) × IsValid p)
unfolding resolve
resolve_ok parse_duration hc def p = bind_ok (merge parse_duration hc def) p
