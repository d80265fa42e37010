-- ===== src/RegistryPrune/Policy/Safety.antt =====
-- internal/registryprune/policy.go: exactly which digests a prune may delete.
use podman_api.Common.{
  ℕ, ◌≡◌, sym, ap, ◌∙◌, Bool, true, false, not, ◌&&◌, ◌||◌, List, [], ◌∷◌, String, arith, string_eq,
  ◌==◌, if◌then◌else◌, contains, inl, inr, Bool-cases,
}
use podman_api.RegistryPrune.Policy.{
  TagGroup, Policy, any_of, classify, deletable, is_stale, has_tag, has_bare_hex_tag, has_feat_tag,
  all_bare_hex_tags, matches_any_exact, matches_any_regex, extra_for,
}

-- The six guards that keep a digest, read independently of their order.
abbrev pub is_guarded : String → TagGroup → List String → List String → Policy → Bool
is_guarded repo tg in_use_set protected_digests p =
    contains in_use_set tg.digest
    || (has_tag tg.tags "latest" && has_bare_hex_tag tg.tags)
    || matches_any_exact tg.tags p.protected_exact
    || matches_any_regex tg.tags p.cal_ver
    || matches_any_regex tg.tags (extra_for repo p.extra_per_repo)
    || contains protected_digests tg.digest

-- Why an unguarded digest goes.
abbrev pub is_garbage : TagGroup → Policy → ℕ → Bool
is_garbage tg p now =
    if has_feat_tag tg.tags
    then is_stale tg p now
    else all_bare_hex_tags tg.tags || p.delete_unrecognised

pub deletable-classify :
    (repo : String) (tg : TagGroup) (in_use_set protected_digests : List String) (p : Policy)
    (now : ℕ)
    → deletable (classify repo tg in_use_set protected_digests p now) p
      ≡ (not (is_guarded repo tg in_use_set protected_digests p) && is_garbage tg p now)
unfolding deletable classify
deletable-classify repo tg in_use_set protected_digests p now = ground arith

any_of-both :
    (name : String) (names tags : List String)
    → contains names name ≡ true
    → any_of (λ t. t == name) tags ≡ true
    → any_of (λ t. contains names t) tags ≡ true
unfolding any_of
any_of-both name names [] h k = k
any_of-both name names (t ∷ tags) h k = elim (Bool-cases (t == name)) [
  | inl same ↦ ground (arith, sym (ap (contains names) ((string_eq.same_iff t name).0 same)), h)
  | inr other ↦ ground (arith, any_of-both name names tags h)
]

-- A digest that carries a name which the policy protects is not deletable, whatever else is true
-- of it.
pub protected_name_kept :
    (repo : String) (tg : TagGroup) (in_use_set protected_digests : List String) (p : Policy)
    (now : ℕ) (name : String)
    → contains p.protected_exact name ≡ true
    → has_tag tg.tags name ≡ true
    → deletable (classify repo tg in_use_set protected_digests p now) p ≡ false
unfolding has_tag
protected_name_kept repo tg u d p now name listed tagged =
    deletable-classify repo tg u d p now ∙ ground (arith, named)
  where
    named : matches_any_exact tg.tags p.protected_exact ≡ true
    named = unfold matches_any_exact in any_of-both name p.protected_exact tg.tags listed tagged
