-- ===== src/Event/Tests.antt =====
-- The flags of Event on single values.
use yy.Prelude.{◌≡◌, refl, true}
use yy.Event.{validate}

validate_all : validate 511 ≡ true
unfolding validate
validate_all = refl
