-- ===== src/Instance/Rendered.antt =====
-- internal/instance/migrate.go, requiredHostPorts, and images.go, containerImages: what is read off
-- a rendered template. The YAML decoder is outside: it gives finitely many documents, as each of the two
-- functions decodes them, with `none` for one that fails. A host port below zero counts as 0, which
-- the code drops alike.
use podman_api.Common.{
  Bool, true, false, ◌||◌, ◌&&◌, ℕ, List, [], ◌∷◌, ◌++◌, Option, none, some, String, string_eq,
  ◌==◌, if◌then◌else◌, ltb, keep, contains,
}

pub record PortDocument : Type 0 where
  pub kind : String
  pub containers : List (List ℕ)  -- the host ports of each container

-- `spec` is missing where a document has none, or one that is no mapping.
pub record ImageDocument : Type 0 where
  pub kind : String
  pub has_spec : Bool
  pub containers : List String  -- the images
  pub init_containers : List String

abbrev pub ports_of : List (List ℕ) → List ℕ
ports_of [] = []
ports_of (ports ∷ containers) = keep (ltb 0) ports ++ ports_of containers

unfoldable pub required_host_ports : List (Option PortDocument) → List ℕ
required_host_ports [] = []
required_host_ports (none ∷ docs) = required_host_ports docs
required_host_ports (some d ∷ docs) =
    let rest = required_host_ports docs in
    if d.kind == "Pod" then ports_of d.containers ++ rest else rest

-- The inner loop: an image is taken unless it is empty or seen.
unfoldable pub add_images : List String → List String → List String
add_images out [] = out
add_images out (img ∷ imgs) =
    add_images (if (img == "") || contains out img then out else out ++ img ∷ []) imgs

-- The first document that does not decode ends the loop.
unfoldable pub container_images_from : List String → List (Option ImageDocument) → List String
unfolding add_images
container_images_from out [] = out
container_images_from out (none ∷ docs) = out
container_images_from out (some d ∷ docs) =
    container_images_from
      (elim ((d.kind == "Pod") && d.has_spec) [
        | true ↦ add_images (add_images out d.containers) d.init_containers
        | false ↦ out
      ])
      docs

unfoldable pub container_images : List (Option ImageDocument) → List String
unfolding container_images_from
container_images docs = container_images_from [] docs
