-- ===== src/Instance/Migrate/Justified.antt =====
-- internal/instance/migrate.go: when a migration may delete an instance.
use podman_api.Common.{◌≡◌, ◌⊎◌, inl, inr, Bool, true, false, [], ◌∷◌, All, String}
use podman_api.Ingress.Routes.{SpecKey}
use podman_api.Instance.{MigrateRequest, key_of}
use podman_api.Instance.Calls.{
  Context, detached, Call, start, delete, wait_running, History, Outside, Succeeded, Asked,
}
use podman_api.Instance.Calls.Grown.{Grown, same, more}

abbrev pub is_delete : Call → Bool
is_delete (delete _ _ _) = true
is_delete _ = false

abbrev pub NoDelete : History → Type 0
NoDelete = All (λ c. is_delete c ≡ false)

-- A delete, given the calls before it: it is detached from the caller's context, of this instance,
-- and either on the source, after the pod ran on the destination, or on the destination, after a
-- start of the source was asked for.
abbrev pub JustifiedCall : Outside → MigrateRequest → Call → History → Type 0
JustifiedCall o req (delete context host key) h =
    (context ≡ detached)
    × (key ≡ key_of req)
    × (((host ≡ req.from_host) × Succeeded o (wait_running req.to_host (key_of req)) h)
        ⊎ ((host ≡ req.to_host) × Asked (start detached req.from_host (key_of req)) h))
JustifiedCall o req _ h = Unit {0}

-- Every call is justified by the calls before it.
abbrev pub Every : (Call → History → Type 0) → History → Type 0
Every J [] = Unit {0}
Every J (c ∷ h) = J c h × Every J h

abbrev pub IsJustified : Outside → MigrateRequest → History → Type 0
IsJustified o req = Every (JustifiedCall o req)

pub JustifiedCall-of_other :
    (o : Outside) (req : MigrateRequest) (c : Call) (h : History)
    → is_delete c ≡ false
    → JustifiedCall o req c h
JustifiedCall-of_other o req (delete context host key) h e = cc
JustifiedCall-of_other o req _ h e = tt

-- Calls that are no deletes need no justification.
module _ (J : Call → History → Type 0)
    (other : (c : Call) (h : History) → is_delete c ≡ false → J c h) where
  pub Every-of_NoDelete : (h : History) → NoDelete h → Every J h
  Every-of_NoDelete [] n = tt
  Every-of_NoDelete (c ∷ h) n = (other c h n.0, Every-of_NoDelete h n.1)

  pub Every-Grown :
      {P : Call → Bool} {h h' : History}
      → ((c : Call) → P c ≡ true → is_delete c ≡ false)
      → Grown P h h'
      → Every J h
      → Every J h'
  Every-Grown no_delete same j = j
  Every-Grown no_delete (more {c} {h'} p g) j =
      (other c h' (no_delete c p), Every-Grown no_delete g j)

module _ (o : Outside) (req : MigrateRequest) where
  pub IsJustified-of_NoDelete : (h : History) → NoDelete h → IsJustified o req h
  IsJustified-of_NoDelete = Every-of_NoDelete (JustifiedCall o req) (JustifiedCall-of_other o req)

module _ {P : Call → Bool} (no_delete : (c : Call) → P c ≡ true → is_delete c ≡ false) where
  pub IsJustified-Grown :
      (o : Outside) (req : MigrateRequest) {h h' : History}
      → Grown P h h'
      → IsJustified o req h
      → IsJustified o req h'
  IsJustified-Grown o req g =
      Every-Grown (JustifiedCall o req) (JustifiedCall-of_other o req) no_delete g

  pub NoDelete-Grown : {h h' : History} → Grown P h h' → NoDelete h → NoDelete h'
  NoDelete-Grown same n = n
  NoDelete-Grown (more {c} p g) n = (no_delete c p, NoDelete-Grown g n)

  pub not-Asked-Grown :
      (context : Context) (host : String) (key : SpecKey) {h h' : History}
      → Grown P h h'
      → ¬ Asked (delete context host key) h
      → ¬ Asked (delete context host key) h'
  not-Asked-Grown context host key same n a = n a
  not-Asked-Grown context host key (more {c} p g) n (inl e) = cc (no_delete c p, e)
  not-Asked-Grown context host key (more {c} p g) n (inr a) = not-Asked-Grown context host key g n a

pub not-Asked_of_NoDelete :
    (context : Context) (host : String) (key : SpecKey) (h : History)
    → NoDelete h
    → ¬ Asked (delete context host key) h
not-Asked_of_NoDelete context host key [] n a = a
not-Asked_of_NoDelete context host key (c ∷ h) n (inl e) = cc (n.0, e)
not-Asked_of_NoDelete context host key (c ∷ h) n (inr a) =
    not-Asked_of_NoDelete context host key h n.1 a
