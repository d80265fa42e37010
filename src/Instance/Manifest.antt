-- ===== src/Instance/Manifest.antt =====
-- internal/instance/manifest.go: the fingerprints of a volume's files, and firstDiff, which the
-- verification of a copied volume and of a backup rest on.
use podman_api.Common.{
  ◌≡◌, ◌≢◌, Bool, true, false, not, ◌&&◌, arith, ℕ, nat_eq, List, [], ◌∷◌, ◌++◌, map, Option, none,
  some, String, string_eq, ◌==◌, ◌||◌, ◌↔◌, sym, ap, ◌∙◌, subst, if◌then◌else◌, get, distinct,
  contains, contains-distinct, sort, str_gt, IsInOrder, sort-IsInOrder, str_gt_asym, str_gt_cotrans,
  All, refl, Bool-cases, inl, inr, any, any-sort,
}

pub record FileInfo : Type 0 where
  pub type_flag : ℕ
  pub size : ℕ
  pub sha256 : String
  pub link : String

-- `==` on the struct.
abbrev pub is_same_file : FileInfo → FileInfo → Bool
is_same_file a b =
    (a.type_flag == b.type_flag)
    && (a.size == b.size)
    && (a.sha256 == b.sha256)
    && (a.link == b.link)

-- A map keyed by the cleaned path.
abbrev pub Manifest : Type 0
Manifest = List (String × FileInfo)

-- `oka != okb || a != b`.
abbrev pub differs : Option FileInfo → Option FileInfo → Bool
differs none none = false
differs none (some b) = true
differs (some a) none = true
differs (some a) (some b) = not (is_same_file a b)

abbrev pub paths : Manifest → List String
paths = map (λ (entry : String × FileInfo). entry.0)

unfoldable pub first_differing : Manifest → Manifest → List String → Option String
first_differing m n [] = none
first_differing m n (k ∷ keys) =
    let rest = first_differing m n keys in if differs (get m k) (get n k) then some k else rest

-- `none` where the manifests are equal.
unfoldable pub first_diff : Manifest → Manifest → Option String
unfolding first_differing
first_diff m n = first_differing m n (sort str_gt (distinct (paths m ++ paths n)))

is_same_file_iff : (a b : FileInfo) → (is_same_file a b ≡ true) ↔ (a ≡ b)
is_same_file_iff a b = (
  λ h. ground (
    arith,
    h,
    nat_eq.same_iff a.type_flag b.type_flag,
    nat_eq.same_iff a.size b.size,
    string_eq.same_iff a.sha256 b.sha256,
    string_eq.same_iff a.link b.link,
  ),
  λ e. ground (
    arith,
    e,
    nat_eq.same_iff a.type_flag b.type_flag,
    nat_eq.same_iff a.size b.size,
    string_eq.same_iff a.sha256 b.sha256,
    string_eq.same_iff a.link b.link,
  ),
)

differs_iff : (a b : Option FileInfo) → (differs a b ≡ false) ↔ (a ≡ b)
differs_iff none none = (λ h. refl, λ e. refl)
differs_iff none (some b) = (λ h. cc, λ e. cc)
differs_iff (some a) none = (λ h. cc, λ e. cc)
differs_iff (some a) (some b) =
    (λ h. ground (arith, h, is_same_file_iff a b), λ e. ground (arith, e, is_same_file_iff a b))

first_differing-none :
    (m n : Manifest) (keys : List String) (k : String)
    → first_differing m n keys ≡ none
    → contains keys k ≡ true
    → differs (get m k) (get n k) ≡ false
unfolding first_differing
first_differing-none m n [] k h c = cc
first_differing-none m n (j ∷ keys) k h c =
    ground (arith, h, c, string_eq.same_iff j k, first_differing-none m n keys k)

first_differing-none_of_same :
    (m n : Manifest) (keys : List String)
    → ((k : String) → differs (get m k) (get n k) ≡ false)
    → first_differing m n keys ≡ none
unfolding first_differing
first_differing-none_of_same m n [] h = refl
first_differing-none_of_same m n (k ∷ keys) h =
    rw (h k, first_differing-none_of_same m n keys h) refl

str_gt_irrefl : (k : String) → str_gt k k ≡ false
str_gt_irrefl k = ground (arith, str_gt_asym k k)

All-contains :
    (P : String → Type 0) (keys : List String) (k : String)
    → All P keys
    → contains keys k ≡ true
    → P k
All-contains P [] k h c = cc
All-contains P (j ∷ keys) k h c = elim (Bool-cases (j == k)) [
  | inl e ↦ subst P ((string_eq.same_iff j k).0 e) h.0
  | inr e ↦ All-contains P keys k h.1 (ground (arith, c, e))
]

first_differing-first :
    (m n : Manifest) (k : String) (keys : List String)
    → IsInOrder str_gt keys
    → first_differing m n keys ≡ some k
    → (differs (get m k) (get n k) ≡ true)
      × ((j : String)
          → contains keys j ≡ true
          → differs (get m j) (get n j) ≡ true
          → str_gt k j ≡ false)
unfolding first_differing
first_differing-first m n k [] sorted h = cc
first_differing-first m n k (x ∷ keys) sorted h = elim (Bool-cases (differs (get m x) (get n x))) [
  | inl d ↦
      let found : x ≡ k = ground (arith, h, d) in
      (
        subst (λ (y : String). differs (get m y) (get n y) ≡ true) found d,
        λ j c _.
            subst (λ (y : String). str_gt y j ≡ false) found
              (All-contains (λ y. str_gt x y ≡ false) (x ∷ keys) j (str_gt_irrefl x, sorted.0) c),
      )
  | inr d ↦
      let (here, least) = first_differing-first m n k keys sorted.1 (ground (arith, h, d)) in
      (here, λ j c e. least j (ground (arith, c, d, e, string_eq.same_iff x j)) e)
]

contains-append :
    (xs ys : List String) (k : String) → contains (xs ++ ys) k ≡ (contains xs k || contains ys k)
contains-append [] ys k = refl
contains-append (x ∷ xs) ys k = ground (arith, contains-append xs ys k)

get-eq-none : (m : Manifest) (k : String) → contains (paths m) k ≡ false → get m k ≡ none
unfolding get
get-eq-none [] k h = refl
get-eq-none ((j, v) ∷ m) k h = ground (arith, h, get-eq-none m k)

-- The paths compared: those of either manifest.
abbrev compared : Manifest → Manifest → List String
compared m n = sort str_gt (distinct (paths m ++ paths n))

contains-any : (keys : List String) (k : String) → contains keys k ≡ any (λ x. x == k) keys
unfolding any
contains-any [] k = refl
contains-any (x ∷ keys) k = ap (λ b. x == k || b) (contains-any keys k)

contains-compared :
    (m n : Manifest) (k : String)
    → contains (compared m n) k ≡ (contains (paths m) k || contains (paths n) k)
contains-compared m n k =
    contains-any (compared m n) k
    ∙ any-sort str_gt (λ x. x == k) (distinct (paths m ++ paths n))
    ∙ sym (contains-any (distinct (paths m ++ paths n)) k)
    ∙ contains-distinct (paths m ++ paths n) k
    ∙ contains-append (paths m) (paths n) k

-- No difference is reported exactly when both manifests have the same files with the same
-- contents.
pub first_diff-none_iff :
    (m n : Manifest) → (first_diff m n ≡ none) ↔ ((k : String) → get m k ≡ get n k)
unfolding first_diff
first_diff-none_iff m n = (
  λ h k. elim (Bool-cases (contains (compared m n) k)) [
    | inl e ↦ (differs_iff (get m k) (get n k)).0 (first_differing-none m n (compared m n) k h e)
    | inr e ↦
        let outside = sym (contains-compared m n k) ∙ e in
        get-eq-none m k (ground (arith, outside)) ∙ sym (get-eq-none n k (ground (arith, outside)))
  ],
  λ h.
      first_differing-none_of_same m n (compared m n)
        (λ k. (differs_iff (get m k) (get n k)).1 (h k)),
)

-- What is reported is a path at which the manifests differ, and none before it differs.
pub first_diff-first :
    (m n : Manifest) (k : String)
    → first_diff m n ≡ some k
    → (get m k ≢ get n k) × ((j : String) → get m j ≢ get n j → str_gt k j ≡ false)
unfolding first_diff
first_diff-first m n k h =
    let (here, least) =
      first_differing-first m n k (compared m n)
        (sort-IsInOrder str_gt str_gt_asym str_gt_cotrans (distinct (paths m ++ paths n))) h in
    (
      λ e. cc (here, (differs_iff (get m k) (get n k)).1 e),
      λ j apart. elim (Bool-cases (contains (compared m n) j)) [
        | inl e ↦ least j e (elim (Bool-cases (differs (get m j) (get n j))) [
          | inl d ↦ d
          | inr d ↦ absurd (apart ((differs_iff (get m j) (get n j)).0 d))
        ])
        | inr e ↦
            let outside = sym (contains-compared m n j) ∙ e in
            absurd (
              apart (
                get-eq-none m j (ground (arith, outside))
                ∙ sym (get-eq-none n j (ground (arith, outside)))))
      ],
    )
