-- ===== src/Instance/Evacuation/Plan.antt =====
-- internal/instance/evacuate.go, ResolveEvacuation: which plans it makes, and which requests it
-- accepts.
use native.Mathlib.Nat.{zero-add}
use podman_api.Common.{
  ◌≡◌, Bool, true, not, ◌&&◌, arith, List, [], ◌∷◌, map, some, String, string_eq, ◌==◌, contains,
  distinct, count, any, any_self, keep, All, All-map, All-sort, All-of_map, refl, sym, ◌∙◌, ap, get,
  sort, str_gt, count-sort, count-map, IsInOrder, is_some, subst,
}
use podman_api.Ingress.Routes.{SpecKey}
use podman_api.Instance.{
  Result, ok, err, SpecKey_eq, MigrateRequest, key_of, >>=-eq-ok, Error, refuse_if, OnOk, OnOk-bind,
  of_OnOk,
}
use podman_api.Instance.Evacuation.{
  Move, EvacuateRequest, EvacuationError, Fleet, key_of_move, check_moves, refuse_keys,
  resolve_evacuation, request_gt, request_of, moves_by_slug, legacy_moves, resolve_moves, names,
  destination, templates_by_slug, refuse_slugs, has_destination, listed, key_gt, or_no_such_slug,
  moves_or,
}
use podman_api.Instance.Evacuation.Order.{sort-IsInOrder_of_requests}
use podman_api.Instance.Evacuation.Checks.{
  names_key, presence, presence-distinct, IsAllowed, check_moves-IsAllowed,
  check_moves_of_bijection, count-names_key, refuse_keys_of_cover, cover_of_presence, contains_self,
}

abbrev pub request_names : SpecKey → MigrateRequest → Bool
request_names k m = key_of m == k

abbrev pub is_move_to : Move → Move → Bool
is_move_to m v = (key_of_move v == key_of_move m) && (v.to_host == m.to_host)

-- The request sends the instance there: by a move of its list, or by the map where it has no list.
abbrev pub SendsTo : List Move → List (String × String) → Move → Type 0
SendsTo [] by_slug m = get by_slug m.slug ≡ some m.to_host
SendsTo (v ∷ moves) by_slug m = any (is_move_to m) (v ∷ moves) ≡ true

abbrev pub move_in : MigrateRequest → Move
move_in m = record { template = m.template; slug = m.slug; to_host = m.to_host }

-- A plan for the host: sorted, each instance on the host in it once and no other, from the host to
-- another known host, which the request gives.
pub record IsPlan (fleet : Fleet) (req : EvacuateRequest) (keys : List SpecKey)
    (plan : List MigrateRequest) : Type 0 where
  pub in_order : IsInOrder request_gt plan
  pub once : (k : SpecKey) → count (request_names k) plan ≡ presence keys k
  pub leaves : All (λ m. m.from_host ≡ req.from_host) plan
  pub allowed : All (λ m. IsAllowed fleet.knows req.from_host (move_in m)) plan
  pub asked : All (λ m. SendsTo req.moves req.by_slug (move_in m)) plan

get-names :
    (entries : List (String × String)) → All (λ s. is_some (get entries s) ≡ true) (names entries)
unfolding get
get-names [] = tt
get-names ((k, v) ∷ entries) = (
  ground (arith, string_eq.same_iff k k),
  All-map (λ s. is_some (get entries s) ≡ true) (λ s. is_some (get ((k, v) ∷ entries) s) ≡ true)
      (λ s h. ground (arith, h)) (names entries) (get-names entries),
)

destination-SendsTo :
    (by_slug : List (String × String)) (slug : String)
    → is_some (get by_slug slug) ≡ true
    → get by_slug slug ≡ some (destination by_slug slug)
destination-SendsTo by_slug slug h = ground (arith, h)

module _ (by_slug templates : List (String × String)) where
  moves_by_slug-SendsTo :
      (slugs : List String)
      → All (λ s. is_some (get by_slug s) ≡ true) slugs
      → OnOk (All (SendsTo [] by_slug)) (moves_by_slug by_slug templates slugs)
  unfolding moves_by_slug
  moves_by_slug-SendsTo [] h = tt
  moves_by_slug-SendsTo (slug ∷ slugs) h =
      OnOk-bind (All (SendsTo [] by_slug)) (or_no_such_slug slug (get templates slug)) _
        λ template _.
          OnOk-bind (All (SendsTo [] by_slug)) (moves_by_slug by_slug templates slugs) _ λ moves e.
            (
              destination-SendsTo by_slug slug h.0,
              of_OnOk (All (SendsTo [] by_slug)) (moves_by_slug by_slug templates slugs)
                  (moves_by_slug-SendsTo slugs h.1) e,
            )

legacy_moves-SendsTo :
    (req : EvacuateRequest) (keys : List SpecKey)
    → OnOk (All (SendsTo [] req.by_slug)) (legacy_moves req keys)
unfolding legacy_moves
legacy_moves-SendsTo req keys =
    OnOk-bind (All (SendsTo [] req.by_slug)) (templates_by_slug (sort key_gt keys) []) _
      λ templates _.
        OnOk-bind (All (SendsTo [] req.by_slug))
          (refuse_slugs
            (keep (λ slug. not (has_destination req slug)) (sort str_gt (names templates))))
          _
          λ _ _. moves_by_slug-SendsTo req.by_slug templates (sort str_gt (names req.by_slug)) (
            All-sort str_gt (λ s. is_some (get req.by_slug s) ≡ true) (names req.by_slug)
              (get-names req.by_slug))

moves_or-SendsTo :
    (by_slug : List (String × String)) (moves : List Move)
    (legacy : Result EvacuationError (List Move))
    → OnOk (All (SendsTo [] by_slug)) legacy
    → OnOk (All (SendsTo moves by_slug)) (moves_or moves legacy)
moves_or-SendsTo by_slug [] legacy h = h
moves_or-SendsTo by_slug (m ∷ moves) legacy h =
    any_self is_move_to
      (λ v. ground (
        arith,
        SpecKey_eq.same_iff (key_of_move v) (key_of_move v),
        string_eq.same_iff v.to_host v.to_host,
      ))
      (m ∷ moves)

resolve_moves-SendsTo :
    (req : EvacuateRequest) (keys : List SpecKey)
    → OnOk (All (SendsTo req.moves req.by_slug)) (resolve_moves req keys)
unfolding resolve_moves
resolve_moves-SendsTo req keys =
    moves_or-SendsTo req.by_slug req.moves (legacy_moves req keys) (legacy_moves-SendsTo req keys)

every_refl : (a : String) (moves : List Move) → All (λ _. a ≡ a) moves
every_refl a [] = tt
every_refl a (m ∷ moves) = (refl, every_refl a moves)

-- The sorted requests made of moves that were checked.
IsPlan-of_checked :
    (fleet : Fleet) (req : EvacuateRequest) (keys : List SpecKey) (moves : List Move)
    (seen : List SpecKey)
    → All (SendsTo req.moves req.by_slug) moves
    → check_moves fleet.knows req.from_host (distinct keys) moves [] ≡ ok seen
    → refuse_keys (keep (λ k. not (contains seen k)) (distinct keys)) ≡ ok tt
    → IsPlan fleet req keys (sort request_gt (map (request_of req.from_host) moves))
IsPlan-of_checked fleet req keys moves seen sent checked covered = record {
  in_order = sort-IsInOrder_of_requests (map (request_of req.from_host) moves);
  once = λ k.
      count-sort request_gt (request_names k) (map (request_of req.from_host) moves)
      ∙ count-map (request_of req.from_host) (request_names k) moves
      ∙ count-names_key fleet.knows req.from_host (distinct keys) moves seen checked covered k
      ∙ presence-distinct keys k;
  leaves =
      All-sort request_gt (λ m. m.from_host ≡ req.from_host) (map (request_of req.from_host) moves)
        (All-of_map (request_of req.from_host) (λ m. m.from_host ≡ req.from_host) moves
          (every_refl req.from_host moves));
  allowed =
      All-sort request_gt (λ m. IsAllowed fleet.knows req.from_host (move_in m))
        (map (request_of req.from_host) moves)
        (All-of_map (request_of req.from_host)
          (λ m. IsAllowed fleet.knows req.from_host (move_in m)) moves
          (check_moves-IsAllowed fleet.knows req.from_host (distinct keys) moves [] checked).0);
  asked =
      All-sort request_gt (λ m. SendsTo req.moves req.by_slug (move_in m))
        (map (request_of req.from_host) moves)
        (All-of_map (request_of req.from_host) (λ m. SendsTo req.moves req.by_slug (move_in m))
          moves sent);
}

of_listed :
    (r : Result Error (List SpecKey)) {keys : List SpecKey} → listed r ≡ ok keys → r ≡ ok keys
of_listed (ok keys) h = ground (arith, h)
of_listed (err e) h = cc

resolve_moves_of_list :
    (req : EvacuateRequest) (keys : List SpecKey) (m : Move) (moves : List Move)
    → req.moves ≡ m ∷ moves
    → resolve_moves req keys ≡ ok (m ∷ moves)
unfolding resolve_moves
resolve_moves_of_list req keys m moves given =
    ap (λ given_moves. moves_or given_moves (legacy_moves req keys)) given

-- A plan that is returned sends every instance on the host, and no other, exactly once, where the
-- request says, to a host that is known and is not the host itself; and it is sorted.
pub resolve_evacuation-IsPlan :
    (fleet : Fleet) (req : EvacuateRequest) {plan : List MigrateRequest}
    → resolve_evacuation fleet req ≡ ok plan
    → (keys : List SpecKey) × (fleet.list_spec_keys req.from_host ≡ ok keys)
      × IsPlan fleet req keys plan
unfolding resolve_evacuation
resolve_evacuation-IsPlan fleet req h =
    let (_, known, h) =
      >>=-eq-ok (refuse_if (not (fleet.knows req.from_host)) EvacuationError.unknown_host) _ h in
    let (keys, keys_listed, h) = >>=-eq-ok (listed (fleet.list_spec_keys req.from_host)) _ h in
    let (moves, resolved, h) = >>=-eq-ok (resolve_moves req (distinct keys)) _ h in
    let (seen, checked, h) =
      >>=-eq-ok (check_moves fleet.knows req.from_host (distinct keys) moves []) _ h in
    let (_, covered, h) =
      >>=-eq-ok (refuse_keys (keep (λ k. not (contains seen k)) (distinct keys))) _ h in
    (
      keys,
      of_listed (fleet.list_spec_keys req.from_host) keys_listed,
      subst (IsPlan fleet req keys) (ground (arith, h)) (
          IsPlan-of_checked fleet req keys moves seen
            (of_OnOk (All (SendsTo req.moves req.by_slug)) (resolve_moves req (distinct keys))
              (resolve_moves-SendsTo req (distinct keys)) resolved)
            checked covered),
    )

-- A list of moves that names every instance on the host and no other, each exactly once, with
-- allowed destinations, is accepted, and the plan is made of these moves.
pub resolve_evacuation_of_bijection :
    (fleet : Fleet) (req : EvacuateRequest) (keys : List SpecKey) (m : Move) (moves : List Move)
    → fleet.knows req.from_host ≡ true
    → fleet.list_spec_keys req.from_host ≡ ok keys
    → req.moves ≡ m ∷ moves
    → All (IsAllowed fleet.knows req.from_host) (m ∷ moves)
    → ((k : SpecKey) → count (names_key k) (m ∷ moves) ≡ presence keys k)
    → resolve_evacuation fleet req
      ≡ ok (sort request_gt (map (request_of req.from_host) (m ∷ moves)))
unfolding resolve_evacuation
resolve_evacuation_of_bijection fleet req keys m moves known keys_listed given allowed exact =
    let (seen, checked, same) =
      check_moves_of_bijection fleet.knows req.from_host (distinct keys) (m ∷ moves) [] allowed
        (λ k. zero-add _ ∙ exact k ∙ sym (presence-distinct keys k)) in
    rw
      (
        known,
        keys_listed,
        resolve_moves_of_list req (distinct keys) m moves given,
        checked,
        refuse_keys_of_cover seen (distinct keys) (
            cover_of_presence seen (distinct keys) (distinct keys) same
              (contains_self (distinct keys))),
      )
      refl
