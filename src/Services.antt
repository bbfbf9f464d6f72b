-- ===== src/Services.antt =====
-- The services between the controllers and the stores. What a controller answers with an error
-- status is a value of `Failure`.
pub mod Sharing
use memoar.Store.Tables.{Error, Result, ok, err}

-- The exceptions of the HTTP framework, and an error of a store that no service translates.
pub data Failure : Type 0 where
  bad_request not_found forbidden conflict : Failure
  review_required review_stale : Failure
  store_failed : Error → Failure

pub data Answer {ℓ} (A : Type ℓ) : Type ℓ where
  done : A → Answer A
  failed : Failure → Answer A

-- An error that a service lets through.
unfoldable pub answered {ℓ} : {A : Type ℓ} → Result A → Answer A
answered (ok a) = done a
answered (err e) = failed (store_failed e)
