-- ===== src/Store/Retention/Tests.antt =====
-- Runs of `applyRetention`.
use memoar.Prelude.JsMap.{has}
use memoar.Prelude.JsMap.{IsMap}
use memoar.Prelude.{◌≡◌, refl, false}
use memoar.Prelude.Str.{codes, ◌==◌}
use memoar.Prelude.JsMap.{get}
use memoar.Store.Tables.{key}
use memoar.Store.Retention.{apply_retention}
use memoar.Store.Retention.Sweep.{get-apply_retention, kept}
use memoar.Examples.{ann, ann-NoColon, tables}

get-apply_retention_example :
    get (key ann.tenant_id (codes "s")) (apply_retention ann (codes "5") false tables).0.sessions
    ≡ kept ann
        (codes "5")
        false
        tables
        (ann.tenant_id == ann.tenant_id)
        (get (key ann.tenant_id (codes "s")) tables.sessions)
unfolding IsMap has
get-apply_retention_example =
    get-apply_retention ann (codes "5") false tables ann.tenant_id (codes "s") (refl, tt)
      ann-NoColon ann-NoColon
