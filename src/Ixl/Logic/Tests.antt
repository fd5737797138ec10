-- ===== src/Ixl/Logic/Tests.antt =====
-- Runs of the decisions of cloud_ixl_logic.c, and the theorems at concrete inputs.
use tfm_cloud_ixl_rasta.Prelude.{
  ℕ, zero, suc, ◌≡◌, ◌≢◌, ◌↔◌, ◌⊎◌, refl, none, arith, some, true, false, [], ◌∷◌,
}
use tfm_cloud_ixl_rasta.Ixl.State.{
  s_free, left, right, free, reserved, go, stop, IxlState, RouteDefinition,
  cloud_ixl_get_route_definition, cloud_ixl_state_init, ruta_ab, ruta_ac,
}
use tfm_cloud_ixl_rasta.Ixl.Logic.{
  route_of, set_route, is_free, route_state_blocks, get_route_state, request_route_decision,
  release_route, route_state_in, get_conflicting_route_state, conflicts_with, routes_share_section,
}
use tfm_cloud_ixl_rasta.Ixl.Logic.Grant.{
  Grantable, request_route_decision-go_iff, request_route_decision_effect,
}
use tfm_cloud_ixl_rasta.Ixl.Logic.Safety.{
  IsSafe, IsSafeAt, cloud_ixl_state_init-IsSafe, request_route_decision-IsSafe,
  release_route_effect, release-request_granted,
}

abbrev definition_ab : RouteDefinition
definition_ab = record {
  id = 0;
  required_sections = 0 ∷ 1 ∷ [];
  required_points = 0 ∷ [];
  required_point_states = left ∷ [];
}

abbrev definition_ac : RouteDefinition
definition_ac = record {
  id = 1;
  required_sections = 0 ∷ 2 ∷ [];
  required_points = 0 ∷ [];
  required_point_states = right ∷ [];
}

-- RUTA_AB is set and the point stands for RUTA_AC.
abbrev ab_set : IxlState
ab_set = record {
  section = s_free ∷ s_free ∷ s_free ∷ [];
  point = right ∷ [];
  signal = 1 ∷ [];
  route = reserved ∷ free ∷ [];
}

ab_is_granted : (request_route_decision (some cloud_ixl_state_init) ruta_ab).1 ≡ go
unfolding request_route_decision get_route_state route_state_in get_conflicting_route_state
    conflicts_with routes_share_section cloud_ixl_state_init cloud_ixl_get_route_definition
    route_state_blocks
ab_is_granted = refl

conflict_is_reserved : get_route_state (some ab_set) ruta_ac ≡ reserved
unfolding get_route_state route_state_in get_conflicting_route_state conflicts_with
    routes_share_section cloud_ixl_get_route_definition route_state_blocks
conflict_is_reserved = refl

request_route_decision-go_iff_example :
    ((request_route_decision (some cloud_ixl_state_init) ruta_ab).1 ≡ go)
    ↔ Grantable cloud_ixl_state_init ruta_ab definition_ab
unfolding cloud_ixl_get_route_definition
request_route_decision-go_iff_example =
    request_route_decision-go_iff cloud_ixl_state_init ruta_ab definition_ab refl

request_route_decision_effect_example :
    ((r : RouteDefinition) × (cloud_ixl_get_route_definition ruta_ac ≡ some r)
      × (request_route_decision (some ab_set) ruta_ac
          ≡ (some (set_route ab_set ruta_ac reserved), go)))
    ⊎ (request_route_decision (some ab_set) ruta_ac ≡ (some ab_set, stop))
request_route_decision_effect_example = request_route_decision_effect ab_set ruta_ac

request_route_decision-IsSafe_example :
    IsSafeAt (request_route_decision (some cloud_ixl_state_init) ruta_ab).0
request_route_decision-IsSafe_example =
    request_route_decision-IsSafe cloud_ixl_state_init ruta_ab cloud_ixl_state_init-IsSafe

release_route_effect_example :
    ((r : RouteDefinition) × (cloud_ixl_get_route_definition ruta_ab ≡ some r)
      × (is_free (route_of ab_set ruta_ab) ≡ false)
      × (release_route (some ab_set) ruta_ab ≡ (some (set_route ab_set ruta_ab free), true)))
    ⊎ (((cloud_ixl_get_route_definition ruta_ab ≡ none)
          ⊎ (is_free (route_of ab_set ruta_ab) ≡ true))
        × (release_route (some ab_set) ruta_ab ≡ (some ab_set, false)))
release_route_effect_example = release_route_effect ab_set ruta_ab

ab_set-IsSafe : IsSafe ab_set
unfolding route_state_blocks
ab_set-IsSafe = record { entries = refl; exclusive = λ i j q r ne a b sh. alone i j ne }
  where
    alone :
        (i j : ℕ)
        → i ≢ j
        → route_state_blocks (route_of ab_set i) ≡ true
        → route_state_blocks (route_of ab_set j) ≡ false
    alone zero zero ne h = absurd (ne refl)
    alone zero (suc zero) ne h = refl
    alone zero (suc (suc j)) ne h = refl
    alone (suc zero) j ne h = cc
    alone (suc (suc i)) j ne h = cc

release-request_granted_example :
    (request_route_decision (release_route (some ab_set) ruta_ab).0 ruta_ac).1 ≡ go
unfolding cloud_ixl_get_route_definition route_state_blocks
release-request_granted_example =
    release-request_granted ab_set ruta_ab ruta_ac definition_ab definition_ac ab_set-IsSafe
      (omega arith) refl refl refl (refl, (refl, tt)) (refl, tt) refl
