-- ===== src/Prune/Policy.antt =====
-- internal/prune/policy.go: a host's prune policy, merged over the defaults and validated.
-- `time.ParseDuration` is a parameter; a duration is its signed number of nanoseconds.
pub mod Resolution
use Prim.Native.String
use podman_api.Common.{
  ℕ, ◌≡◌, Bool, true, false, ◌&&◌, ◌||◌, not, Option, none, some, List, [], ◌∷◌, String, string_eq,
  ◌==◌, if◌then◌else◌, contains, ℤ, pos, negsuc, is_negative, is_above,
}

abbrev pub scope_volumes : String
scope_volumes = "volumes"

unfoldable pub valid_scope : String → Bool
valid_scope s =
    contains ("dangling" ∷ "all-images" ∷ "containers" ∷ "build-cache" ∷ "volumes" ∷ []) s

-- `Defaults` has the same fields.
pub record Policy : Type 0 where
  pub enabled : Bool
  pub interval : ℤ
  pub disk_threshold : ℤ
  pub scope : List String
  pub dry_run : Bool

-- config.PruneConfig: an absent field inherits the default.
pub record PruneConfig : Type 0 where
  pub enabled : Option Bool
  pub interval : Option String
  pub disk_threshold : Option ℤ
  pub scope : Option (List String)
  pub dry_run : Option Bool

pub data ResolveError : Type 0 where
  bad_interval unknown_scope duplicate_scope : String → ResolveError
  threshold_out_of_range : ℤ → ResolveError
  empty_scope : ResolveError

pub data Result (A : Type 0) : Type 0 where
  ok : A → Result A
  err : ResolveError → Result A

infixl 5 ◌>>=◌
abbrev pub ◌>>=◌ : {A B : Type 0} → Result A → (A → Result B) → Result B
ok a >>= f = f a
err e >>= f = err e

abbrev or_default {ℓ} : {A : Type ℓ} → Option A → A → A
or_default none d = d
or_default (some a) d = a

module _ (parse_duration : String → Option ℤ) where
  unfoldable pub resolve_interval : Option String → ℤ → Result ℤ
  resolve_interval none d = ok d
  resolve_interval (some text) d = elim (parse_duration text) [
    | none ↦ err (bad_interval text)
    | some i ↦ ok i
  ]

  unfoldable pub merge : Option PruneConfig → Policy → Result Policy
  unfolding resolve_interval
  merge none def = ok def
  merge (some hc) def = do
    i ← resolve_interval hc.interval def.interval
    ok (record {
      enabled = or_default hc.enabled def.enabled;
      interval = i;
      disk_threshold = or_default hc.disk_threshold def.disk_threshold;
      scope = or_default hc.scope def.scope;
      dry_run = or_default hc.dry_run def.dry_run;
    })

-- The loop over the scope tokens, with those already seen.
unfoldable pub check_scopes : List String → List String → Option ResolveError
check_scopes seen [] = none
check_scopes seen (s ∷ scopes) =
    let rest = check_scopes (s ∷ seen) scopes in
    if not (valid_scope s)
    then some (unknown_scope s)
    else if contains seen s
    then some (duplicate_scope s)
    else rest

abbrev is_empty : List String → Bool
is_empty [] = true
is_empty _ = false

abbrev reject_or : Option ResolveError → Result Policy → Result Policy
reject_or none r = r
reject_or (some e) r = err e

unfoldable pub validate : Policy → Result Policy
validate p =
    if is_negative p.disk_threshold || is_above 100 p.disk_threshold
    then err (threshold_out_of_range p.disk_threshold)
    else reject_or (check_scopes [] p.scope)
        (if p.enabled && is_empty p.scope then err empty_scope else ok p)

unfoldable pub resolve : (String → Option ℤ) → Option PruneConfig → Policy → Result Policy
resolve parse_duration hc def = do p ← merge parse_duration hc def; validate p

unfoldable pub has_scope : Policy → String → Bool
has_scope p s = contains p.scope s
