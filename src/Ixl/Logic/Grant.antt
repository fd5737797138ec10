-- ===== src/Ixl/Logic/Grant.antt =====
-- When a route request is granted: the loops of cloud_ixl_logic.c against what they look for.
use tfm_cloud_ixl_rasta.Prelude.{
  ℕ, zero, suc, ◌+◌, ◌≤◌, ◌<◌, ◌≡◌, ◌≢◌, ◌↔◌, ◌⊎◌, inl, inr, refl, ◌==◌, true, false, Bool-cases,
  some, Option-cases, List, [], ◌∷◌, All, arith,
}
use tfm_cloud_ixl_rasta.Ixl.State.{
  s_free, PointState, reserved, go, stop, SectionId, PointId, RouteId, IxlState, RouteDefinition,
  cloud_ixl_get_route_definition,
}
use tfm_cloud_ixl_rasta.Ixl.Logic.{
  is_free, section_of, point_of, route_of, route_state_blocks, contains_section, sections_meet,
  routes_share_section, conflicts_with, conflict_from, get_conflicting_route_state, sections_free,
  points_set, route_state_in, get_route_state, set_route, request_route_decision,
}

abbrev pub Has : SectionId → List SectionId → Type 0
Has c [] = ⊥
Has c (x ∷ xs) = (c ≡ x) ⊎ Has c xs

-- The routes need a section in common.
abbrev pub Share : RouteDefinition → RouteDefinition → Type 0
Share r q = (c : SectionId) × Has c r.required_sections × Has c q.required_sections

abbrev pub PointsIn : IxlState → List PointId → List PointState → Type 0
PointsIn s (i ∷ is) (q ∷ qs) = (point_of s i ≡ q) × PointsIn s is qs
PointsIn s _ _ = Unit

-- What must hold before a route is set.
pub record Grantable (s : IxlState) (id : RouteId) (r : RouteDefinition) : Type 0 where
  pub idle : route_state_blocks (route_of s id) ≡ false
  pub clear : All (λ i. section_of s i ≡ s_free) r.required_sections
  pub locked : PointsIn s r.required_points r.required_point_states
  pub alone :
      (j : RouteId) (q : RouteDefinition)
      → j ≢ id
      → cloud_ixl_get_route_definition j ≡ some q
      → Share r q
      → route_state_blocks (route_of s j) ≡ false

contains_section_iff :
    (c : SectionId) (rs : List SectionId) → (contains_section rs c ≡ true) ↔ Has c rs
unfolding contains_section
contains_section_iff c [] = ((λ h. cc), λ h. absurd h)
contains_section_iff c (x ∷ xs) = ground (arith, contains_section_iff c xs)

sections_meet-Share :
    (ls rs : List SectionId) → sections_meet ls rs ≡ true → (c : SectionId) × Has c ls × Has c rs
unfolding sections_meet
sections_meet-Share [] rs h = cc
sections_meet-Share (l ∷ ls) rs h = elim (Bool-cases (contains_section rs l)) [
  | inl p ↦ (l, inl refl, (contains_section_iff l rs).0 p)
  | inr p ↦ let (c, a, b) = sections_meet-Share ls rs (ground arith) in (c, inr a, b)
]

Share-sections_meet :
    (ls rs : List SectionId) (c : SectionId) → Has c ls → Has c rs → sections_meet ls rs ≡ true
unfolding sections_meet
Share-sections_meet [] rs c a b = absurd a
Share-sections_meet (l ∷ ls) rs c (inl e) b = ground (arith, (contains_section_iff c rs).1 b)
Share-sections_meet (l ∷ ls) rs c (inr a) b = ground (arith, Share-sections_meet ls rs c a b)

pub routes_share_section_iff :
    (r q : RouteDefinition) → (routes_share_section r q ≡ true) ↔ Share r q
unfolding routes_share_section
routes_share_section_iff r q = (
  sections_meet-Share r.required_sections q.required_sections,
  λ (c, a, b). Share-sections_meet r.required_sections q.required_sections c a b,
)

sections_free_iff :
    (s : IxlState) (is : List SectionId)
    → (sections_free s is ≡ true) ↔ All (λ i. section_of s i ≡ s_free) is
unfolding sections_free
sections_free_iff s [] = ((λ h. tt), λ h. refl)
sections_free_iff s (i ∷ is) = ground (arith, sections_free_iff s is)

points_set_iff :
    (s : IxlState) (is : List PointId) (qs : List PointState)
    → (points_set s is qs ≡ true) ↔ PointsIn s is qs
unfolding points_set
points_set_iff s [] qs = ((λ h. tt), λ h. refl)
points_set_iff s (i ∷ is) [] = ((λ h. tt), λ h. refl)
points_set_iff s (i ∷ is) (q ∷ qs) = ground (arith, points_set_iff s is qs)

-- No conflict is found exactly where none of the `n` routes from `k` on conflicts.
conflict_from-none :
    (s : IxlState) (id : RouteId) (r : RouteDefinition) (k n j : ℕ)
    → is_free (conflict_from s id r k n) ≡ true
    → k ≤ j
    → j < k + n
    → conflicts_with s id r j ≡ false
unfolding conflict_from
conflict_from-none s id r k zero j h lo hi = absurd (omega arith)
conflict_from-none s id r k (suc n) j h lo hi =
    ground (arith, conflict_from-none s id r (suc k) n j)

none-conflict_from :
    (s : IxlState) (id : RouteId) (r : RouteDefinition) (k n : ℕ)
    → ((j : RouteId) → conflicts_with s id r j ≡ false)
    → is_free (conflict_from s id r k n) ≡ true
unfolding conflict_from
none-conflict_from s id r k zero h = refl
none-conflict_from s id r k (suc n) h = ground (arith, h k, none-conflict_from s id r (suc k) n h)

definition_bounds :
    (j : RouteId) (q : RouteDefinition) → cloud_ixl_get_route_definition j ≡ some q → j < 2
unfolding cloud_ixl_get_route_definition
definition_bounds j q h = ground arith

-- `conflicts_with` against what it stands for.
conflicts_with-alone :
    (s : IxlState) (id : RouteId) (r : RouteDefinition) (j : RouteId) (q : RouteDefinition)
    → conflicts_with s id r j ≡ false
    → j ≢ id
    → cloud_ixl_get_route_definition j ≡ some q
    → Share r q
    → route_state_blocks (route_of s j) ≡ false
unfolding conflicts_with
conflicts_with-alone s id r j q h ne e sh = ground (arith, (routes_share_section_iff r q).1 sh)

Grantable-conflicts_with :
    (s : IxlState) (id : RouteId) (r : RouteDefinition) (j : RouteId)
    → Grantable s id r
    → conflicts_with s id r j ≡ false
unfolding conflicts_with
Grantable-conflicts_with s id r j g = elim (Option-cases (cloud_ixl_get_route_definition j)) [
  | inl e ↦ ground arith
  | inr (q, e) ↦ elim (Bool-cases (routes_share_section r q)) [
    | inl sh ↦ elim (Bool-cases (j == id)) [
      | inl same ↦ ground arith
      | inr other ↦
          ground (arith, g.alone j q (ground arith) e ((routes_share_section_iff r q).0 sh))
    ]
    | inr sh ↦ ground arith
  ]
]

-- The tests that a route in state `free` has passed.
free-tests :
    (s : IxlState) (id : RouteId) (r : RouteDefinition)
    → is_free (route_state_in s id r) ≡ true
    → (route_state_blocks (route_of s id) ≡ false)
      × (sections_free s r.required_sections ≡ true)
      × (is_free (get_conflicting_route_state s id r) ≡ true)
      × (points_set s r.required_points r.required_point_states ≡ true)
unfolding route_state_in route_state_blocks
free-tests s id r h = ground arith

granted-Grantable :
    (s : IxlState) (id : RouteId) (r : RouteDefinition)
    → is_free (route_state_in s id r) ≡ true
    → Grantable s id r
unfolding get_conflicting_route_state
granted-Grantable s id r h =
    let (idle, sections, alone, points) = free-tests s id r h in
    record {
      idle = idle;
      clear = (sections_free_iff s r.required_sections).0 sections;
      locked = (points_set_iff s r.required_points r.required_point_states).0 points;
      alone = λ j q ne e sh.
          conflicts_with-alone s id r j q
            (conflict_from-none s id r 0 2 j alone (omega arith) (definition_bounds j q e)) ne e sh;
    }

Grantable-granted :
    (s : IxlState) (id : RouteId) (r : RouteDefinition)
    → Grantable s id r
    → is_free (route_state_in s id r) ≡ true
unfolding route_state_in get_conflicting_route_state
Grantable-granted s id r g =
    let sections = (sections_free_iff s r.required_sections).1 g.clear in
    let points = (points_set_iff s r.required_points r.required_point_states).1 g.locked in
    let alone = none-conflict_from s id r 0 2 (λ j. Grantable-conflicts_with s id r j g) in
    ground (arith, g.idle, sections, points, alone)

-- A request for a route of the table is granted exactly where the route is not in use itself, its
-- sections are all free, its points all stand as it needs them, and no other route of the table
-- that needs one of its sections is reserved, requested or occupied.
pub request_route_decision-go_iff :
    (s : IxlState) (id : RouteId) (r : RouteDefinition)
    → cloud_ixl_get_route_definition id ≡ some r
    → ((request_route_decision (some s) id).1 ≡ go) ↔ Grantable s id r
unfolding request_route_decision get_route_state
request_route_decision-go_iff s id r e =
    (λ h. granted-Grantable s id r (ground arith), λ g. ground (arith, Grantable-granted s id r g))

-- Whatever the request, either the decision is `go`, the table has the route asked for, and the
-- one change to the state is that this route becomes reserved; or the decision is `stop` and the
-- state is as it was.
pub request_route_decision_effect :
    (s : IxlState) (id : RouteId)
    → ((r : RouteDefinition) × (cloud_ixl_get_route_definition id ≡ some r)
        × (request_route_decision (some s) id ≡ (some (set_route s id reserved), go)))
      ⊎ (request_route_decision (some s) id ≡ (some s, stop))
unfolding request_route_decision get_route_state
request_route_decision_effect s id = elim (Option-cases (cloud_ixl_get_route_definition id)) [
  | inl e ↦ inr (ground arith)
  | inr (r, e) ↦ elim (Bool-cases (is_free (route_state_in s id r))) [
    | inl f ↦ inl (r, e, ground arith)
    | inr f ↦ inr (ground arith)
  ]
]
