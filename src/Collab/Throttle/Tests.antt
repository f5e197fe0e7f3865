-- ===== src/Collab/Throttle/Tests.antt =====
-- Three calls in a burst.
use inkstave.Prelude.{ℕ, ◌≡◌, refl, [], ◌∷◌}
use inkstave.Collab.Throttle.{called, fired, idle, invocations}
use inkstave.Collab.Throttle.Burst.{invocations-burst}

invocations-burst_example :
    invocations {A = ℕ} idle (called 1 ∷ called 2 ∷ called 3 ∷ fired ∷ []) ≡ 1 ∷ 3 ∷ []
invocations-burst_example = invocations-burst idle 1 (2 ∷ 3 ∷ []) refl refl
