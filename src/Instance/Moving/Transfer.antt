-- ===== src/Instance/Moving/Transfer.antt =====
-- internal/instance/migrate.go, migratePostStop: what it has done when it returns without an error.
use podman_api.Common.{
  ◌≡◌, inr, Bool, true, false, List, [], ◌∷◌, Option, none, some, String, refl, get, All, All-map,
}
use podman_api.Ingress.Routes.{SpecKey}
use podman_api.Instance.{Error, Result, OnOk, Parameters, MigrateRequest, key_of, wrap, ◌&◌}
use podman_api.Instance.Manifest.{Manifest, first_diff, first_diff-none_iff}
use podman_api.Instance.Moving.{
  Stranded, stranded, diff_verdict, verify_copy, copy_one, copy_volumes, copy_detail, apply_request,
  replicate_source, migrate_post_stop, provision_secrets, apply_detail,
}
use podman_api.Instance.Moving.Steps.{is_moving, stop_paired-Adds, provision_secrets-Adds}
use podman_api.Instance.Calls.{
  Call, step, Spec, Template, Volume, wait_running, list_volumes, volume_manifest, copy_volume,
  apply, History, Outside, pure, note, require_value, Succeeded,
}
use podman_api.Instance.Calls.Grown.{
  Grown, Adds-require, Adds-note, Adds-note_at, Adds-give_up_with,
}
use podman_api.Instance.Calls.Meets.{
  Meets, Meets-give_up_with, Meets-weaken, Meets-bind, Meets-bind_Adds, Meets-require,
  Meets-require_value, IsStable, IsStable-Grown, Got,
}

-- The volume was read off the source and, where verification is on, read back from the destination
-- with the same files and contents.
abbrev pub IsCopied : Outside → MigrateRequest → Volume → History → Type 0
IsCopied o req v h =
    (src : Manifest) × Got o (copy_volume req.from_host req.to_host v.name) o.manifest src h
    × (o.verifies_volumes ≡ true
        → (dst : Manifest) × Got o (volume_manifest req.to_host v.name) o.manifest dst h
          × ((path : String) → get src path ≡ get dst path))

diff_verdict-same :
    (name : String) (src dst : Manifest) (d : Option String) (h : History)
    → first_diff src dst ≡ d
    → OnOk (λ _. (path : String) → get src path ≡ get dst path) (diff_verdict name d h).0
unfolding diff_verdict
diff_verdict-same name src dst none h e = (first_diff-none_iff src dst).0 e
diff_verdict-same name src dst (some path) h e = tt

IsCopied-step : (o : Outside) (req : MigrateRequest) (v : Volume) → IsStable (IsCopied o req v)
IsCopied-step o req v c h (src, got, reread) =
    (src, inr got, λ on. let (dst, got', agree) = reread on in (dst, inr got', agree))

IsCopied-All :
    (o : Outside) (req : MigrateRequest) (vols : List Volume)
    → IsStable (λ h. All (λ v. IsCopied o req v h) vols)
IsCopied-All o req vols c h =
    All-map (λ v. IsCopied o req v h) (λ v. IsCopied o req v (c ∷ h))
      (λ v. IsCopied-step o req v c h) vols

-- What the copies and the start on the destination amount to.
abbrev pub IsReplicated : Outside → MigrateRequest → Parameters → Spec → History → Type 0
IsReplicated o req eff spec h =
    ((vols : List Volume) × Got o (list_volumes req.from_host (key_of req)) o.volumes vols h
      × All (λ v. IsCopied o req v h) vols)
    × Succeeded o (apply req.to_host (apply_request req eff spec)) h
    × Succeeded o (wait_running req.to_host (key_of req)) h

module _ (o : Outside) (req : MigrateRequest) where
  module _ (B : History → Type 0) (stable : IsStable B) where
    -- Any step keeps what is stable.
    keeps : {P : Call → Bool} (h h' : History) → Grown P h h' → B h → B h'
    keeps h h' g b = IsStable-Grown B stable g b

    module _ (v : Volume) (src : Manifest) where
      abbrev AfterCopy : History → Type 0
      AfterCopy h = B h × Got o (copy_volume req.from_host req.to_host v.name) o.manifest src h

      AfterCopy-stable : IsStable AfterCopy
      AfterCopy-stable c h x = (stable c h x.0, inr x.1)

      diff_verdict-Meets :
          (dst : Manifest) (d : Option String)
          → first_diff src dst ≡ d
          → Meets
              (λ h. AfterCopy h × Got o (volume_manifest req.to_host v.name) o.manifest dst h)
              (diff_verdict v.name d)
              (λ r h. B h × OnOk (λ _. IsCopied o req v h) r)
      unfolding diff_verdict
      diff_verdict-Meets dst none e = record {
        at = λ h x. (
          stable _ h x.0.0,
          (src, inr x.0.1, λ _. (dst, inr x.1, (first_diff-none_iff src dst).0 e)),
        );
      }
      diff_verdict-Meets dst (some path) e = record { at = λ h x. (x.0.0, tt) }

      verify_copy-Meets :
          (b : Bool)
          → o.verifies_volumes ≡ b
          → Meets AfterCopy
              (verify_copy o req v.name src b)
              (λ r h. B h × OnOk (λ _. IsCopied o req v h) r)
      unfolding verify_copy
      verify_copy-Meets false e = record { at = λ h x. (x.0, (src, x.1, λ on. cc (on, e))) }
      verify_copy-Meets true e =
          Meets-bind AfterCopy
            (λ r h.
              AfterCopy h
              × OnOk (λ dst. Got o (volume_manifest req.to_host v.name) o.manifest dst h) r)
            (λ r h. B h × OnOk (λ _. IsCopied o req v h) r)
            (require_value o (volume_manifest req.to_host v.name) o.manifest
              (wrap ("verify volume " & v.name & ": re-export dest")))
            (λ dst. diff_verdict v.name (first_diff src dst))
            (Meets-require_value AfterCopy AfterCopy-stable o _ _ o.manifest) (λ e h x. (x.0.0, tt))
            (λ dst. diff_verdict-Meets dst (first_diff src dst) refl)

    copy_one-Meets :
        (v : Volume) → Meets B (copy_one o req v) (λ r h. B h × OnOk (λ _. IsCopied o req v h) r)
    unfolding copy_one
    copy_one-Meets v =
        let After : Result Error (Unit {0}) → History → Type 0 =
          λ r h. B h × OnOk (λ _. IsCopied o req v h) r in
        Meets-bind_Adds B After _ _ (Adds-require {P = is_moving} o _ _ refl) keeps
          (λ e h b. (b, tt))
          λ _.
            Meets-bind_Adds B After _ _ (Adds-note {P = is_moving} _ _ refl) keeps
              (λ e h b. (b, tt))
              λ _.
                Meets-bind B
                  (λ r h.
                    B h
                    × OnOk
                        (λ src.
                          Got o (copy_volume req.from_host req.to_host v.name) o.manifest src h)
                        r)
                  After _ _
                  (Meets-require_value B stable o (copy_volume req.from_host req.to_host v.name)
                    (wrap ("copy volume " & v.name)) o.manifest)
                  (λ e h x. (x.0, tt))
                  λ src.
                    Meets-bind_Adds (AfterCopy v src) After _ _
                      (Adds-note_at {P = is_moving} "copy-volume-done" (copy_detail o v)
                        (λ _. refl))
                      (λ h h' g x. IsStable-Grown (AfterCopy v src) (AfterCopy-stable v src) g x)
                      (λ e h x. (x.0, tt)) λ _. verify_copy-Meets v src o.verifies_volumes refl

  copy_volumes-Meets :
      (B : History → Type 0)
      → IsStable B
      → (vols : List Volume)
      → Meets B
          (copy_volumes o req vols)
          (λ r h. B h × OnOk (λ _. All (λ v. IsCopied o req v h) vols) r)
  unfolding copy_volumes
  copy_volumes-Meets B stable [] = record { at = λ h b. (b, tt) }
  copy_volumes-Meets B stable (v ∷ vols) =
      let rest =
        copy_volumes-Meets (λ h. B h × IsCopied o req v h)
          (λ c h x. (stable c h x.0, IsCopied-step o req v c h x.1)) vols in
      Meets-bind B (λ r h. B h × OnOk (λ _. IsCopied o req v h) r)
        (λ r h. B h × OnOk (λ _. All (λ v. IsCopied o req v h) (v ∷ vols)) r) (copy_one o req v)
        (λ _. copy_volumes o req vols) (copy_one-Meets B stable v) (λ e h x. (x.0, tt))
        λ _.
          Meets-weaken (λ h. B h × IsCopied o req v h)
            (λ r h. (B h × IsCopied o req v h) × OnOk (λ _. All (λ v. IsCopied o req v h) vols) r)
            (λ r h. B h × OnOk (λ _. All (λ v. IsCopied o req v h) (v ∷ vols)) r)
            (copy_volumes o req vols) rest (λ e h x. (x.0.0, tt)) (λ _ h x. (x.0.0, (x.0.1, x.1)))

  module _ (B : History → Type 0) (stable : IsStable B) (eff : Parameters) (spec : Spec) where
    -- The volumes that were listed are copied.
    abbrev AreCopied : List Volume → History → Type 0
    AreCopied vols h =
        (B h × Got o (list_volumes req.from_host (key_of req)) o.volumes vols h)
        × All (λ v. IsCopied o req v h) vols

    AreCopied-stable : (vols : List Volume) → IsStable (AreCopied vols)
    AreCopied-stable vols c h x = ((stable c h x.0.0, inr x.0.1), IsCopied-All o req vols c h x.1)

    abbrev IsApplied : List Volume → History → Type 0
    IsApplied vols h =
        AreCopied vols h × Succeeded o (apply req.to_host (apply_request req eff spec)) h

    IsApplied-stable : (vols : List Volume) → IsStable (IsApplied vols)
    IsApplied-stable vols c h x = (AreCopied-stable vols c h x.0, inr x.1)

    replicate_source-Meets :
        Meets B
          (replicate_source o req eff spec)
          (λ r h. B h × OnOk (λ _. IsReplicated o req eff spec h) r)
    unfolding replicate_source
    replicate_source-Meets =
        let After : Result Error (Unit {0}) → History → Type 0 =
          λ r h. B h × OnOk (λ _. IsReplicated o req eff spec h) r in
        Meets-bind B
          (λ r h.
            B h × OnOk (λ vols. Got o (list_volumes req.from_host (key_of req)) o.volumes vols h) r)
          After _ _
          (Meets-require_value B stable o (list_volumes req.from_host (key_of req))
            (wrap "list source volumes") o.volumes)
          (λ e h x. (x.0, tt))
          λ vols.
            Meets-bind (λ h. B h × Got o (list_volumes req.from_host (key_of req)) o.volumes vols h)
              (λ r h.
                (B h × Got o (list_volumes req.from_host (key_of req)) o.volumes vols h)
                × OnOk (λ _. All (λ v. IsCopied o req v h) vols) r)
              After _ _
              (copy_volumes-Meets
                (λ h. B h × Got o (list_volumes req.from_host (key_of req)) o.volumes vols h)
                (λ c h x. (stable c h x.0, inr x.1)) vols)
              (λ e h x. (x.0.0, tt))
              λ _.
                Meets-bind_Adds (AreCopied vols) After _ _
                  (Adds-note {P = is_moving} "apply-dest" req.to_host refl)
                  (λ h h' g x. IsStable-Grown (AreCopied vols) (AreCopied-stable vols) g x)
                  (λ e h x. (x.0.0, tt))
                  λ _.
                    Meets-bind (AreCopied vols)
                      (λ r h.
                        AreCopied vols h
                        × OnOk (λ _. Succeeded o (apply req.to_host (apply_request req eff spec)) h)
                            r)
                      After _ _
                      (Meets-require (AreCopied vols) (AreCopied-stable vols) o
                        (apply req.to_host (apply_request req eff spec)) (wrap "apply on dest"))
                      (λ e h x. (x.0.0.0, tt))
                      λ _.
                        Meets-bind_Adds (IsApplied vols) After _ _
                          (Adds-note_at {P = is_moving} "apply-dest-done" (apply_detail o req)
                            (λ _. refl))
                          (λ h h' g x. IsStable-Grown (IsApplied vols) (IsApplied-stable vols) g x)
                          (λ e h x. (x.0.0.0, tt))
                          λ _.
                            Meets-bind (IsApplied vols)
                              (λ r h.
                                IsApplied vols h
                                × OnOk (λ _. Succeeded o (wait_running req.to_host (key_of req)) h)
                                    r)
                              After _ (λ _. note "verify" req.to_host)
                              (Meets-require (IsApplied vols) (IsApplied-stable vols) o
                                (wait_running req.to_host (key_of req)) (wrap "verify dest"))
                              (λ e h x. (x.0.0.0.0, tt))
                              λ _. record {
                                at = λ h x.
                                    let y =
                                      IsApplied-stable vols (step "verify" req.to_host) h x.0 in
                                    (y.0.0.0, ((vols, y.0.0.1, y.0.1), y.1, inr x.1));
                              }

    -- After a success of the steps, what they amount to holds on top of what held before.
    pub migrate_post_stop-Meets :
        (tmpl : Template)
        → Meets B
            (migrate_post_stop o req eff tmpl spec)
            (λ r h. B h × OnOk (λ _. IsReplicated o req eff spec h) r)
    unfolding migrate_post_stop
    migrate_post_stop-Meets tmpl =
        let After : Result Stranded (List SpecKey) → History → Type 0 =
          λ r h. B h × OnOk (λ _. IsReplicated o req eff spec h) r in
        Meets-bind_Adds B After _ _
          (Adds-give_up_with (stranded []) (provision_secrets o req tmpl.host_secrets)
            (provision_secrets-Adds o req tmpl.host_secrets))
          (keeps B stable) (λ e h b. (b, tt))
          λ _.
            Meets-bind_Adds B After _ _ (stop_paired-Adds o req req.also_stop []) (keeps B stable)
              (λ e h b. (b, tt))
              λ stopped.
                Meets-bind B (λ r h. B h × OnOk (λ _. IsReplicated o req eff spec h) r) After _
                  (λ _. pure stopped)
                  (Meets-give_up_with B (λ h. B h) (λ _ h. IsReplicated o req eff spec h)
                    (stranded stopped) (replicate_source o req eff spec) replicate_source-Meets)
                  (λ e h x. (x.0, tt)) λ _. record { at = λ h x. x }

pub IsReplicated-step :
    (o : Outside) (req : MigrateRequest) (eff : Parameters) (spec : Spec)
    → IsStable (IsReplicated o req eff spec)
IsReplicated-step o req eff spec c h ((vols, got, copied), applied, running) =
    ((vols, inr got, IsCopied-All o req vols c h copied), inr applied, inr running)
