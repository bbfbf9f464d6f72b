-- ===== src/RateLimits/Tests.antt =====
-- Runs of the guard.
use memoar.Prelude.JsMap.{has}
use memoar.Prelude.JsMap.{IsMap}
use memoar.Prelude.Str.{◌==◌}
use memoar.Prelude.{◌+◌, ◌≡◌, refl, arith, List, [], ◌∷◌, none, some}
use memoar.Prelude.Str.{codes}
use memoar.Prelude.JsMap.{get, JsMap}
use memoar.RateLimits.{flood_key, Platform, Request, Window}
use memoar.RateLimits.Counting.{get-run, Hit, hits_of, run}

abbrev platform : Platform
platform = record {
  environment = λ name. none;
  number = λ text. none;
  normalize = λ text. text;
  subject = λ payload. none;
}

abbrev request : Request
request = record {
  method = codes "GET";
  route = none;
  path = codes "/v1/pack";
  ip = none;
  tenant_id = some (codes "a");
  email = none;
  machine_id = none;
  authorization = none;
}

abbrev full_window : Window
full_window = record { count = 300; expires_at = 60000 }

abbrev windows : JsMap Window
windows = (codes "memoar:rate-limit:GET:/v1/pack:tenant:a", full_window) ∷ []

abbrev others : List Hit
others = record { key = codes "k"; seconds = 60; now = 59999 } ∷ []

opened : get (flood_key request) windows ≡ some full_window
unfolding flood_key get ◌==◌
opened = refl

get-run_example :
    get (flood_key request) (run others windows)
    ≡ some (record full_window { count = 300 + hits_of (flood_key request) others })
unfolding IsMap has
get-run_example =
    get-run (flood_key request) others windows full_window (refl, tt) opened (omega arith, tt)
