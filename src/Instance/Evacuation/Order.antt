-- ===== src/Instance/Evacuation/Order.antt =====
-- internal/instance/evacuate.go: the order by template and slug.
use podman_api.Common.{
  ◌≡◌, true, false, arith, str_gt_asym, str_gt_cotrans, sort, IsInOrder, sort-IsInOrder, List,
}
use podman_api.Ingress.Routes.{SpecKey}
use podman_api.Instance.{MigrateRequest, key_of}
use podman_api.Instance.Evacuation.{key_gt, request_gt}

key_gt_asym : (j k : SpecKey) → key_gt j k ≡ true → key_gt k j ≡ false
key_gt_asym j k h = ground (arith, str_gt_asym j.template k.template, str_gt_asym j.slug k.slug)

key_gt_cotrans : (i j k : SpecKey) → key_gt i j ≡ false → key_gt j k ≡ false → key_gt i k ≡ false
key_gt_cotrans i j k p q = ground (
  arith,
  str_gt_cotrans i.template j.template k.template,
  str_gt_cotrans k.template i.template j.template,
  str_gt_cotrans j.template k.template i.template,
  str_gt_cotrans i.slug j.slug k.slug,
)

pub sort-IsInOrder_of_requests :
    (plan : List MigrateRequest) → IsInOrder request_gt (sort request_gt plan)
sort-IsInOrder_of_requests =
    sort-IsInOrder request_gt (λ m n. key_gt_asym (key_of m) (key_of n))
      (λ m n o. key_gt_cotrans (key_of m) (key_of n) (key_of o))
