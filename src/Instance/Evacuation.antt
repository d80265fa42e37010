-- ===== src/Instance/Evacuation.antt =====
-- internal/instance/evacuate.go: ResolveEvacuation and resolveMoves.
--
-- The host table is a test and the store's ListSpecKeys a function. A Go map is an association list
-- that holds each key once; where the code ranges over a map it sorts the keys first.
pub mod Checks
pub mod Order
pub mod Plan
use podman_api.Common.{
  ◌≡◌, Bool, true, false, not, ◌&&◌, ◌||◌, List, [], ◌∷◌, map, Option, none, some, String,
  string_eq, ◌==◌, if◌then◌else◌, get, put, contains, distinct, keep, sort, str_gt,
}
use podman_api.Ingress.Routes.{SpecKey}
use podman_api.Instance.{
  Error, Result, ok, err, ◌>>=◌, ◌>>◌, refuse_if, SpecKey_eq, MigrateRequest, key_of, full_name,
}

pub record Move : Type 0 where
  pub template : String
  pub slug : String
  pub to_host : String

pub record EvacuateRequest : Type 0 where
  pub from_host : String
  pub by_slug : List (String × String)  -- the field Map
  pub moves : List Move

-- All but `unknown_host`, `same_host` and `unlisted` wrap ErrInvalidEvacuation.
pub data EvacuationError : Type 0 where
  unknown_host same_host : EvacuationError
  unlisted : Error → EvacuationError
  ambiguous_slug : String → String → String → EvacuationError
  no_such_slug : String → EvacuationError
  slugs_without_destination keys_without_destination : List String → EvacuationError
  no_such_instance duplicate_move : SpecKey → EvacuationError
  no_such_destination : String → SpecKey → EvacuationError

-- `s.host` as a test, and `ListSpecKeys`.
pub record Fleet : Type 0 where
  pub knows : String → Bool
  pub list_spec_keys : String → Result Error (List SpecKey)

abbrev pub key_of_move : Move → SpecKey
key_of_move m = record { template = m.template; slug = m.slug }

-- `cmp.Or(strings.Compare(a.Template, b.Template), strings.Compare(a.Slug, b.Slug)) > 0`.
abbrev pub key_gt : SpecKey → SpecKey → Bool
key_gt j k =
    str_gt j.template k.template || (not (str_gt k.template j.template) && str_gt j.slug k.slug)

abbrev pub request_gt : MigrateRequest → MigrateRequest → Bool
request_gt m n = key_gt (key_of m) (key_of n)

-- The template that holds the slug already, if it is another one.
abbrev pub clash : String → Option String → Option String
clash template none = none
clash template (some prev) = if prev == template then none else some prev

abbrev pub unless_clash :
    SpecKey
    → Option String
    → Result EvacuationError (List (String × String))
    → Result EvacuationError (List (String × String))
unless_clash k none rest = rest
unless_clash k (some prev) rest = err (ambiguous_slug k.slug prev k.template)

-- The loop that fills `tmplBySlug`.
unfoldable pub templates_by_slug :
    List SpecKey → List (String × String) → Result EvacuationError (List (String × String))
templates_by_slug [] found = ok found
templates_by_slug (k ∷ keys) found =
    let rest = templates_by_slug keys (put k.slug k.template found) in
    unless_clash k (clash k.template (get found k.slug)) rest

abbrev pub names : List (String × String) → List String
names = map (λ (entry : String × String). entry.0)

abbrev pub has_destination : EvacuateRequest → String → Bool
has_destination req slug = elim (get req.by_slug slug) [ none ↦ false | some _ ↦ true ]

abbrev pub refuse_slugs : List String → Result EvacuationError (Unit {0})
refuse_slugs [] = ok tt
refuse_slugs (slug ∷ slugs) = err (slugs_without_destination (slug ∷ slugs))

abbrev pub or_no_such_slug : String → Option String → Result EvacuationError String
or_no_such_slug slug none = err (no_such_slug slug)
or_no_such_slug slug (some template) = ok template

abbrev pub move_of : String → String → String → Move
move_of slug template dest = record { template = template; slug = slug; to_host = dest }

-- `req.Map[slug]`, which is empty where the key is missing.
abbrev pub destination : List (String × String) → String → String
destination by_slug slug = elim (get by_slug slug) [ none ↦ "" | some dest ↦ dest ]

-- The loop over the sorted slugs of the map.
unfoldable pub moves_by_slug :
    List (String × String)
    → List (String × String)
    → List String
    → Result EvacuationError (List Move)
moves_by_slug by_slug templates [] = ok []
moves_by_slug by_slug templates (slug ∷ slugs) = do
  template ← or_no_such_slug slug (get templates slug)
  others ← moves_by_slug by_slug templates slugs
  ok (move_of slug template (destination by_slug slug) ∷ others)

-- The legacy form, `Map`.
unfoldable pub legacy_moves : EvacuateRequest → List SpecKey → Result EvacuationError (List Move)
unfolding templates_by_slug moves_by_slug
legacy_moves req host_keys = do
  templates ← templates_by_slug (sort key_gt host_keys) []
  refuse_slugs (keep (λ slug. not (has_destination req slug)) (sort str_gt (names templates)))
  moves_by_slug req.by_slug templates (sort str_gt (names req.by_slug))

abbrev pub moves_or :
    List Move → Result EvacuationError (List Move) → Result EvacuationError (List Move)
moves_or [] legacy = legacy
moves_or (m ∷ moves) legacy = ok (m ∷ moves)

unfoldable pub resolve_moves : EvacuateRequest → List SpecKey → Result EvacuationError (List Move)
unfolding legacy_moves
resolve_moves req host_keys = moves_or req.moves (legacy_moves req host_keys)

-- The loop that checks the bijection. The result is the set `seen`.
unfoldable pub check_moves :
    (String → Bool)
    → String
    → List SpecKey
    → List Move
    → List SpecKey
    → Result EvacuationError (List SpecKey)
check_moves knows from keys [] seen = ok seen
check_moves knows from keys (m ∷ moves) seen = do
  refuse_if (not (contains keys (key_of_move m))) (no_such_instance (key_of_move m))
  refuse_if (contains seen (key_of_move m)) (duplicate_move (key_of_move m))
  refuse_if (m.to_host == from) same_host
  refuse_if (not (knows m.to_host)) (no_such_destination m.to_host (key_of_move m))
  check_moves knows from keys moves (key_of_move m ∷ seen)

abbrev pub refuse_keys : List SpecKey → Result EvacuationError (Unit {0})
refuse_keys [] = ok tt
refuse_keys (k ∷ keys) = err (keys_without_destination (sort str_gt (map full_name (k ∷ keys))))

abbrev pub request_of : String → Move → MigrateRequest
request_of from m = record {
  from_host = from;
  to_host = m.to_host;
  template = m.template;
  slug = m.slug;
  parameters = [];
  also_stop = [];
}

abbrev pub listed : Result Error (List SpecKey) → Result EvacuationError (List SpecKey)
listed (ok keys) = ok keys
listed (err e) = err (unlisted e)

unfoldable pub resolve_evacuation :
    Fleet → EvacuateRequest → Result EvacuationError (List MigrateRequest)
unfolding resolve_moves check_moves
resolve_evacuation fleet req = do
  refuse_if (not (fleet.knows req.from_host)) unknown_host
  keys ← listed (fleet.list_spec_keys req.from_host)
  moves ← resolve_moves req (distinct keys)
  seen ← check_moves fleet.knows req.from_host (distinct keys) moves []
  refuse_keys (keep (λ k. not (contains seen k)) (distinct keys))
  ok (sort request_gt (map (request_of req.from_host) moves))
