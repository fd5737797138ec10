-- ===== src/Ixl/Logic.antt =====
-- src/cloud_ixl/c/cloud_ixl_logic.c and cloud_ixl_output.c: the decision on a route request, and
-- the release of a route. `none` stands for a NULL pointer to the state. The messages that the
-- functions print are left out.
pub mod Grant
pub mod Safety
mod Tests
use tfm_cloud_ixl_rasta.Prelude.{
  ℕ, zero, suc, ◌==◌, Bool, true, false, ◌&&◌, ◌||◌, Option, none, some, List, [], ◌∷◌, get_or, set,
  if◌then◌else◌,
}
use tfm_cloud_ixl_rasta.Ixl.State.{
  SectionState, s_free, s_failed, PointState, left, right, unintended, moving, no_end, RouteState,
  free, wrong_points, reserved, occupied, requested, invalid, RouteDecision, stop, go, SectionId,
  RouteId, SignalAspect, via_libre, parada, route_count, IxlState, RouteDefinition,
  cloud_ixl_get_route_definition,
}

-- `==` and `!=` on the enumerations.
abbrev pub is_s_free : SectionState → Bool
is_s_free s_free = true
is_s_free _ = false

abbrev pub same_point_state : PointState → PointState → Bool
same_point_state left left = true
same_point_state right right = true
same_point_state unintended unintended = true
same_point_state moving moving = true
same_point_state no_end no_end = true
same_point_state _ _ = false

abbrev pub is_free : RouteState → Bool
is_free free = true
is_free _ = false

unfoldable pub route_state_blocks : RouteState → Bool
route_state_blocks reserved = true
route_state_blocks requested = true
route_state_blocks occupied = true
route_state_blocks _ = false

-- A read outside the array gives the last value of the enumeration; no caller makes one.
abbrev pub section_of : IxlState → SectionId → SectionState
section_of s i = get_or s.section i s_failed

abbrev pub point_of : IxlState → ℕ → PointState
point_of s i = get_or s.point i no_end

abbrev pub route_of : IxlState → RouteId → RouteState
route_of s i = get_or s.route i invalid

-- The inner loop of `routes_share_section`.
contains_section : List SectionId → SectionId → Bool
contains_section [] left_section = false
contains_section (right_section ∷ rs) left_section =
    left_section == right_section || contains_section rs left_section

sections_meet : List SectionId → List SectionId → Bool
sections_meet [] rights = false
sections_meet (l ∷ ls) rights = contains_section rights l || sections_meet ls rights

unfoldable pub routes_share_section : RouteDefinition → RouteDefinition → Bool
unfolding sections_meet contains_section
routes_share_section left_route right_route =
    sections_meet left_route.required_sections right_route.required_sections

-- The test on one `other_index`.
unfoldable pub conflicts_with : IxlState → RouteId → RouteDefinition → RouteId → Bool
conflicts_with s route_id route other_route_id =
    if other_route_id == route_id
    then false
    else if route_state_blocks (route_of s other_route_id)
    then elim (cloud_ixl_get_route_definition other_route_id) [
      | none ↦ false
      | some other_route ↦ routes_share_section route other_route
    ]
    else false

-- The loop from `other_index` on, with `n` rounds left.
conflict_from : IxlState → RouteId → RouteDefinition → ℕ → ℕ → RouteState
conflict_from s route_id route other_index zero = free
conflict_from s route_id route other_index (suc n) =
    if conflicts_with s route_id route other_index
    then reserved
    else conflict_from s route_id route (suc other_index) n

unfoldable pub get_conflicting_route_state : IxlState → RouteId → RouteDefinition → RouteState
unfolding conflict_from
get_conflicting_route_state s route_id route = conflict_from s route_id route 0 route_count

-- The loop over the required sections ends early at one that is not free.
sections_free : IxlState → List SectionId → Bool
sections_free s [] = true
sections_free s (i ∷ is) = is_s_free (section_of s i) && sections_free s is

-- The loop over the required points, with their required states beside them.
points_set : IxlState → List ℕ → List PointState → Bool
points_set s (i ∷ is) (q ∷ qs) = same_point_state (point_of s i) q && points_set s is qs
points_set s _ _ = true

-- `get_route_state` once both pointers are known not to be NULL.
unfoldable pub route_state_in : IxlState → RouteId → RouteDefinition → RouteState
unfolding sections_free points_set
route_state_in s route_id route =
    if route_state_blocks (route_of s route_id)
    then route_of s route_id
    else if sections_free s route.required_sections
    then (let conflict_state = get_conflicting_route_state s route_id route in
        if is_free conflict_state
        then (if points_set s route.required_points route.required_point_states
            then free
            else wrong_points)
        else conflict_state)
    else occupied

unfoldable pub get_route_state : Option IxlState → RouteId → RouteState
get_route_state none route_id = invalid
get_route_state (some s) route_id = elim (cloud_ixl_get_route_definition route_id) [
  | none ↦ invalid
  | some route ↦ route_state_in s route_id route
]

abbrev pub set_route : IxlState → RouteId → RouteState → IxlState
set_route s route_id r = record s { route = set s.route route_id r }

-- The state is only written where `get_route_state` has found the pointer not to be NULL.
unfoldable pub request_route_decision : Option IxlState → RouteId → Option IxlState × RouteDecision
request_route_decision none route_id = (none, stop)
request_route_decision (some s) route_id =
    if is_free (get_route_state (some s) route_id)
    then (some (set_route s route_id reserved), go)
    else (some s, stop)

unfoldable pub release_route : Option IxlState → RouteId → Option IxlState × Bool
release_route none route_id = (none, false)
release_route (some s) route_id = elim (cloud_ixl_get_route_definition route_id) [
  | none ↦ (some s, false)
  | some route ↦
      if is_free (route_of s route_id)
      then (some s, false)
      else (some (set_route s route_id free), true)
]

unfoldable pub ls_request_command : RouteDecision → SignalAspect
ls_request_command go = via_libre
ls_request_command stop = parada
