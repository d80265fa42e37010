-- ===== src/RegistryPrune/Policy.antt =====
-- internal/registryprune/policy.go: the class of a digest, and which classes are deletable.
--
-- A compiled regular expression is the predicate that its `MatchString` computes. A set of digests
-- is a list of its members. Times count nanoseconds from year 1, so a zero `Created` is 0; a
-- retention is a number of days for which Go's product with 24 hours does not overflow.
pub mod Safety
use Prim.Native.Char.{code}
use text.Mathlib.Text.{starts_with}
use podman_api.Common.{
  ℕ, suc, ◌+◌, ◌-◌, ◌*◌, ◌≡◌, Bool, true, false, not, ◌&&◌, ◌||◌, Option, none, some, List, [], ◌∷◌,
  map, String, string_eq, nat_eq, ◌==◌, leb, ltb, if◌then◌else◌, contains, length, min,
}

pub data Class : Type 0 where
  protected calver repo_protected shares_protected in_use feat_recent sha_is_latest : Class
  unclassified sha_orphan feat_stale : Class

-- imgregistry.TagGroup: every tag that points at one digest in one repository.
pub record TagGroup : Type 0 where
  pub digest : String
  pub tags : List String
  pub created : ℕ

pub record Policy : Type 0 where
  pub protected_exact : List String
  pub cal_ver : Option (String → Bool)
  pub extra_per_repo : List (String × Option (String → Bool))
  pub retention_days : ℕ
  pub max_deletes_per_repo : ℕ
  pub delete_unrecognised : Bool

-- The code points of a text: its bytes, where it is ASCII.
abbrev pub codes : String → List ℕ
codes String.[] = []
codes (String.◌∷◌ c s) = code c ∷ codes s

abbrev all_of {ℓ} : {A : Type ℓ} → (A → Bool) → List A → Bool
all_of p [] = true
all_of p (x ∷ xs) = p x && all_of p xs

-- The loop of every test on a group's tags.
unfoldable pub any_of : (String → Bool) → List String → Bool
any_of p [] = false
any_of p (t ∷ tags) = p t || any_of p tags

abbrev is_digit : ℕ → Bool
is_digit c = leb b'0' c && leb c b'9'

abbrev is_hex : ℕ → Bool
is_hex c = is_digit c || (leb b'a' c && leb c b'f')

-- `^[0-9a-f]{7,12}$`.
unfoldable pub is_bare_hex_tag : String → Bool
is_bare_hex_tag tag =
    leb 7 (length (codes tag)) && leb (length (codes tag)) 12 && all_of is_hex (codes tag)

-- `^[0-9]{4}\.[0-9]{2}\.[0-9]{2}$`.
unfoldable pub is_cal_ver : String → Bool
is_cal_ver tag = shape (codes tag)
  where
    shape : List ℕ → Bool
    shape (y ∷ e ∷ a ∷ r ∷ dot ∷ m ∷ n ∷ stop ∷ d ∷ f ∷ []) =
        all_of is_digit (y ∷ e ∷ a ∷ r ∷ m ∷ n ∷ d ∷ f ∷ []) && (dot == b'.' && stop == b'.')
    shape _ = false

-- `^(runtime-base|valvo-fork-v1)`.
abbrev otp_extra : String → Bool
otp_extra t = starts_with t "runtime-base" || starts_with t "valvo-fork-v1"

unfoldable pub default_policy : Policy
unfolding is_cal_ver
default_policy = record {
  protected_exact = "latest" ∷ "e2e" ∷ "dev" ∷ "main" ∷ "deps-cache" ∷ "scanners-cache" ∷ [];
  cal_ver = some is_cal_ver;
  extra_per_repo = ("otp", some otp_extra) ∷ [];
  retention_days = 30;
  max_deletes_per_repo = 100;
  delete_unrecognised = false;
}

unfoldable pub has_bare_hex_tag : List String → Bool
has_bare_hex_tag tags = any_of is_bare_hex_tag tags

abbrev all_tags : (String → Bool) → List String → Bool
all_tags p [] = true
all_tags p (t ∷ tags) = p t && all_tags p tags

unfoldable pub all_bare_hex_tags : List String → Bool
all_bare_hex_tags [] = false
all_bare_hex_tags (t ∷ tags) = all_tags is_bare_hex_tag (t ∷ tags)

unfoldable pub has_tag : List String → String → Bool
has_tag tags name = any_of (λ t. t == name) tags

unfoldable pub matches_any_exact : List String → List String → Bool
matches_any_exact tags names = any_of (λ t. contains names t) tags

unfoldable pub matches_any_regex : List String → Option (String → Bool) → Bool
matches_any_regex tags none = false
matches_any_regex tags (some re) = any_of re tags

unfoldable pub has_feat_tag : List String → Bool
has_feat_tag tags = any_of (λ t. starts_with t "feat-") tags

unfoldable pub extra_for : String → List (String × Option (String → Bool)) → Option (String → Bool)
extra_for repo [] = none
extra_for repo ((r, re) ∷ rest) = if r == repo then re else extra_for repo rest

-- 24 hours in nanoseconds.
abbrev pub day : ℕ
day = 86400000000000

-- `time.Sub` saturates at the largest `Duration`; below zero it is past no retention.
abbrev pub elapsed : ℕ → ℕ → ℕ
elapsed now t = min (now - t) 9223372036854775807

unfoldable pub is_stale : TagGroup → Policy → ℕ → Bool
is_stale tg p now = tg.created == 0 || ltb (p.retention_days * day) (elapsed now tg.created)

unfoldable pub classify : String → TagGroup → List String → List String → Policy → ℕ → Class
classify repo tg in_use_set protected_digests p now =
    if contains in_use_set tg.digest
    then in_use
    else if has_tag tg.tags "latest" && has_bare_hex_tag tg.tags
    then sha_is_latest
    else if matches_any_exact tg.tags p.protected_exact
    then protected
    else if matches_any_regex tg.tags p.cal_ver
    then calver
    else if matches_any_regex tg.tags (extra_for repo p.extra_per_repo)
    then repo_protected
    else if contains protected_digests tg.digest
    then shares_protected
    else if has_feat_tag tg.tags
    then (if is_stale tg p now then feat_stale else feat_recent)
    else if all_bare_hex_tags tg.tags
    then sha_orphan
    else unclassified

unfoldable pub deletable : Class → Policy → Bool
deletable sha_orphan p = true
deletable feat_stale p = true
deletable unclassified p = p.delete_unrecognised
deletable _ p = false
