-- ===== src/Store/Backups/Tests.antt =====
-- Backup rows through their states, and the theorems on them at concrete rows.
use podman_api.Common.{◌≡◌, refl, some, [], ◌∷◌, string_eq, get, put, remove}
use podman_api.Store.Backups.{
  Backup, Backups, creating, complete, create_backup, settle, complete_backup, fail_backup,
}
use podman_api.Store.Backups.Settled.{create, fail, finish_with, delete, run, step, settled_kept}

abbrev draft : Backup
draft = record {
  id = "bk_1";
  host = "h1";
  template = "erp";
  slug = "shop";
  state = creating;
  volumes = [];
  image = "";
  mode = "";
  created = 0;
  finished = 0;
}

abbrev done : Backup
done = record draft { state = complete; created = 3; finished = 9 }

abbrev started : Backups
started = ("bk_1", record draft { created = 3 }) ∷ []

created_then_completed :
    run (create 3 draft ∷ finish_with 9 "bk_1" [] ∷ fail 10 "bk_1" ∷ []) [] ≡ ("bk_1", done) ∷ []
unfolding run step create_backup complete_backup fail_backup settle get put remove
created_then_completed = refl

settled_kept_example :
    get (run (fail 10 "bk_1" ∷ delete "bk_0" ∷ create 11 draft ∷ []) (("bk_1", done) ∷ [])) "bk_1"
    ≡ some done
unfolding get
settled_kept_example =
    settled_kept (fail 10 "bk_1" ∷ delete "bk_0" ∷ create 11 draft ∷ []) "bk_1" done
      (("bk_1", done) ∷ []) refl refl (refl, (refl, (refl, tt)))
