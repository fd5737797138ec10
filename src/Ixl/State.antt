-- ===== src/Ixl/State.antt =====
-- src/cloud_ixl/headers/cloud_ixl_types.h, cloud_ixl_state.h and cloud_ixl_routes.h, with
-- src/cloud_ixl/c/cloud_ixl_state.c and cloud_ixl_routes.c: the state of the interlocking and
-- its table of routes.
use tfm_cloud_ixl_rasta.Prelude.{
  ℕ, ◌==◌, Option, none, some, List, [], ◌∷◌, replicate, if◌then◌else◌,
}

pub data SectionState : Type 0 where
  s_free s_occupied s_unknown s_failed : SectionState

pub data PointState : Type 0 where
  left right unintended moving no_end : PointState

pub data RouteState : Type 0 where
  free wrong_points reserved occupied requested invalid : RouteState

pub data RouteDecision : Type 0 where
  stop go : RouteDecision

-- The enumerations that index arrays, or that a cast may leave, are their numbers.
abbrev pub SectionId : Type 0
SectionId = ℕ

abbrev pub PointId : Type 0
PointId = ℕ

abbrev pub RouteId : Type 0
RouteId = ℕ

abbrev pub SignalAspect : Type 0
SignalAspect = ℕ

abbrev pub signal_count : ℕ
signal_count = 1

abbrev pub point_count : ℕ
point_count = 1

abbrev pub section_count : ℕ
section_count = 3

abbrev pub route_count : ℕ
route_count = 2

abbrev pub p_01 : PointId
p_01 = 0

abbrev pub cv_01 : SectionId
cv_01 = 0

abbrev pub cv_02 : SectionId
cv_02 = 1

abbrev pub cv_03 : SectionId
cv_03 = 2

abbrev pub ruta_ab : RouteId
ruta_ab = 0

abbrev pub ruta_ac : RouteId
ruta_ac = 1

abbrev pub via_libre : SignalAspect
via_libre = 0

abbrev pub parada : SignalAspect
parada = 1

-- `IXL_state`: one array for each kind of element.
pub record IxlState : Type 0 where
  pub section : List SectionState
  pub point : List PointState
  pub signal : List SignalAspect
  pub route : List RouteState

unfoldable pub cloud_ixl_state_init : IxlState
cloud_ixl_state_init = record {
  section = replicate section_count s_free;
  point = replicate point_count left;
  signal = replicate signal_count parada;
  route = replicate route_count free;
}

-- `RouteDefinition`. Each list holds the first `..._count` entries of its array.
pub record RouteDefinition : Type 0 where
  pub id : RouteId
  pub required_sections : List SectionId
  pub required_points : List PointId
  pub required_point_states : List PointState

abbrev pub route_definitions : List RouteDefinition
route_definitions =
    record {
      id = ruta_ab;
      required_sections = cv_01 ∷ cv_02 ∷ [];
      required_points = p_01 ∷ [];
      required_point_states = left ∷ [];
    }
    ∷ record {
      id = ruta_ac;
      required_sections = cv_01 ∷ cv_03 ∷ [];
      required_points = p_01 ∷ [];
      required_point_states = right ∷ [];
    }
    ∷ []

-- The loop over the table; `none` is NULL.
find_definition : List RouteDefinition → RouteId → Option RouteDefinition
find_definition [] route_id = none
find_definition (d ∷ ds) route_id = if d.id == route_id then some d else find_definition ds route_id

unfoldable pub cloud_ixl_get_route_definition : RouteId → Option RouteDefinition
unfolding find_definition
cloud_ixl_get_route_definition route_id = find_definition route_definitions route_id
