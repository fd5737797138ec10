-- ===== src/Ixl/Logic/Safety.antt =====
-- Two routes that need one section are never set together (cloud_ixl_logic.c).
use tfm_cloud_ixl_rasta.Prelude.{
  ◌<◌, ◌≡◌, ◌≢◌, ◌⊎◌, inl, inr, refl, sym, ap, ◌∙◌, zero, suc, subst, ℕ_discrete, true, false,
  Bool-cases, Option, none, some, Option-cases, All, length, length-set, get_or-set_self,
  get_or-set_ne, arith,
}
use tfm_cloud_ixl_rasta.Ixl.State.{
  RouteState, s_free, free, reserved, invalid, go, RouteId, IxlState, RouteDefinition,
  cloud_ixl_get_route_definition, cloud_ixl_state_init,
}
use tfm_cloud_ixl_rasta.Ixl.Logic.{
  is_free, route_of, section_of, route_state_blocks, set_route, request_route_decision,
  release_route,
}
use tfm_cloud_ixl_rasta.Ixl.Logic.Grant.{
  Share, PointsIn, Grantable, request_route_decision-go_iff, request_route_decision_effect,
}

-- The state of `route[]`: an entry for each route, and no conflict between two of them.
pub record IsSafe (s : IxlState) : Type 0 where
  pub entries : length s.route ≡ 2
  pub exclusive :
      (i j : RouteId) (q r : RouteDefinition)
      → i ≢ j
      → cloud_ixl_get_route_definition i ≡ some q
      → cloud_ixl_get_route_definition j ≡ some r
      → Share q r
      → route_state_blocks (route_of s i) ≡ true
      → route_state_blocks (route_of s j) ≡ false

Share-comm : (q r : RouteDefinition) → Share q r → Share r q
Share-comm q r (c, a, b) = (c, b, a)

-- The table has one definition for an index.
definition_unique :
    (i j : RouteId) (q r : RouteDefinition)
    → i ≡ j
    → cloud_ixl_get_route_definition i ≡ some q
    → cloud_ixl_get_route_definition j ≡ some r
    → q ≡ r
definition_unique i j q r same a b = cc

pub get_definition_lt :
    (j : RouteId) (q : RouteDefinition) → cloud_ixl_get_route_definition j ≡ some q → j < 2
unfolding cloud_ixl_get_route_definition
get_definition_lt j q h = ground arith

route_of-set_self :
    (s : IxlState) (id : RouteId) (v : RouteState)
    → length s.route ≡ 2
    → id < 2
    → route_of (set_route s id v) id ≡ v
route_of-set_self s id v h k = get_or-set_self s.route id v invalid (omega arith)

route_of-set_ne :
    (s : IxlState) (id j : RouteId) (v : RouteState)
    → id ≢ j
    → route_of (set_route s id v) j ≡ route_of s j
route_of-set_ne s id j v ne = get_or-set_ne s.route id j v invalid ne

-- A route may be reserved where the grant's conditions hold.
reserve_exclusive :
    (s : IxlState) (id : RouteId) (p : RouteDefinition)
    → cloud_ixl_get_route_definition id ≡ some p
    → Grantable s id p
    → IsSafe s
    → (i j : RouteId) (q r : RouteDefinition) → i ≢ j
    → cloud_ixl_get_route_definition i ≡ some q
    → cloud_ixl_get_route_definition j ≡ some r
    → Share q r
    → route_state_blocks (route_of (set_route s id reserved) i) ≡ true
    → route_state_blocks (route_of (set_route s id reserved) j) ≡ false
reserve_exclusive s id p e g v i j q r ne a b sh h = elim (ℕ_discrete i id) [
  | yes same ↦ rw (route_of-set_ne s id j reserved (λ k. ne (same ∙ k))) (
      g.alone j r (λ k. ne (same ∙ sym k)) b
        (subst (λ x. Share x r) (definition_unique i id q p same a e) sh))
  | no other ↦ elim (ℕ_discrete j id) [
    | yes same ↦ cc (
      g.alone i q other a
          (subst (λ x. Share x q) (definition_unique j id r p same b e) (Share-comm q r sh)),
      route_of-set_ne s id i reserved (λ k. other (sym k)),
      h,
    )
    | no other' ↦ rw (route_of-set_ne s id j reserved (λ k. other' (sym k))) (
        v.exclusive i j q r ne a b sh
          (rw (route_of-set_ne s id i reserved (λ k. other (sym k))) at h))
  ]
]

-- Freeing a route takes nothing away.
free_exclusive :
    (s : IxlState) (id : RouteId)
    → id < 2
    → IsSafe s
    → (i j : RouteId) (q r : RouteDefinition) → i ≢ j
    → cloud_ixl_get_route_definition i ≡ some q
    → cloud_ixl_get_route_definition j ≡ some r
    → Share q r
    → route_state_blocks (route_of (set_route s id free) i) ≡ true
    → route_state_blocks (route_of (set_route s id free) j) ≡ false
unfolding route_state_blocks
free_exclusive s id lt v i j q r ne a b sh h = elim (ℕ_discrete j id) [
  | yes same ↦ rw (same, route_of-set_self s id free v.entries lt)
  | no other ↦ elim (ℕ_discrete i id) [
    | yes same ↦
        let freed : route_of (set_route s id free) i ≡ free =
          rw same (route_of-set_self s id free v.entries lt) in
        cc (ap route_state_blocks freed, h)
    | no other' ↦ rw (route_of-set_ne s id j free (λ k. other (sym k))) (
        v.exclusive i j q r ne a b sh (rw (route_of-set_ne s id i free (λ k. other' (sym k))) at h))
  ]
]

-- `cloud_ixl_state_init` leaves a safe state.
pub cloud_ixl_state_init-IsSafe : IsSafe cloud_ixl_state_init
unfolding cloud_ixl_state_init route_state_blocks
cloud_ixl_state_init-IsSafe = record {
  entries = refl;
  exclusive = λ i j q r ne a b sh h. init_idle j;
}
  where
    init_idle : (j : RouteId) → route_state_blocks (route_of cloud_ixl_state_init j) ≡ false
    init_idle zero = refl
    init_idle (suc zero) = refl
    init_idle (suc (suc j)) = refl

abbrev pub IsSafeAt : Option IxlState → Type 0
IsSafeAt none = Unit
IsSafeAt (some s) = IsSafe s

-- A route request keeps the state safe: whatever is asked, no two routes that need a common section
-- are reserved, requested or occupied together afterwards.
pub request_route_decision-IsSafe :
    (s : IxlState) (id : RouteId) → IsSafe s → IsSafeAt (request_route_decision (some s) id).0
request_route_decision-IsSafe s id v = elim (request_route_decision_effect s id) [
  | inr e ↦ rw e v
  | inl (p, d, e) ↦ rw e (record {
    entries = length-set s.route id reserved ∙ v.entries;
    exclusive = reserve_exclusive s id p d ((request_route_decision-go_iff s id p d).0 (rw e)) v;
  })
]

-- A release keeps the state safe.
pub release_route-IsSafe :
    (s : IxlState) (id : RouteId) → IsSafe s → IsSafeAt (release_route (some s) id).0
unfolding release_route
release_route-IsSafe s id v = elim (Option-cases (cloud_ixl_get_route_definition id)) [
  | inl e ↦ rw (e, release_route) v
  | inr (p, d) ↦ elim (Bool-cases (is_free (route_of s id))) [
    | inl f ↦ rw (d, f, release_route) v
    | inr f ↦
        rw (d, f, release_route)
          (record {
            entries = length-set s.route id free ∙ v.entries;
            exclusive = free_exclusive s id (get_definition_lt id p d) v;
          })
  ]
]

-- A release succeeds exactly for a route of the table that is not free. It then leaves that route
-- free and changes nothing else; where it fails it changes nothing.
pub release_route_effect :
    (s : IxlState) (id : RouteId)
    → ((r : RouteDefinition) × (cloud_ixl_get_route_definition id ≡ some r)
        × (is_free (route_of s id) ≡ false)
        × (release_route (some s) id ≡ (some (set_route s id free), true)))
      ⊎ (((cloud_ixl_get_route_definition id ≡ none) ⊎ (is_free (route_of s id) ≡ true))
          × (release_route (some s) id ≡ (some s, false)))
unfolding release_route
release_route_effect s id = elim (Option-cases (cloud_ixl_get_route_definition id)) [
  | inl e ↦ inr (inl e, ground arith)
  | inr (r, e) ↦ elim (Bool-cases (is_free (route_of s id))) [
    | inl f ↦ inr (inr f, ground arith)
    | inr f ↦ inl (r, e, f, ground arith)
  ]
]

free_idle : route_state_blocks free ≡ false
unfolding route_state_blocks
free_idle = refl

release_route_held :
    (s : IxlState) (i : RouteId) (q : RouteDefinition)
    → cloud_ixl_get_route_definition i ≡ some q
    → is_free (route_of s i) ≡ false
    → (release_route (some s) i).0 ≡ some (set_route s i free)
unfolding release_route
release_route_held s i q a held = ground arith

-- In a safe state, releasing one route makes way for another: once it is released, a request for
-- the other is granted as soon as the other is not in use, its sections are free and its points
-- are set.
pub release-request_granted :
    (s : IxlState) (i j : RouteId) (q r : RouteDefinition)
    → IsSafe s
    → i ≢ j
    → cloud_ixl_get_route_definition i ≡ some q
    → cloud_ixl_get_route_definition j ≡ some r
    → route_state_blocks (route_of s j) ≡ false
    → All (λ k. section_of s k ≡ s_free) r.required_sections
    → PointsIn s r.required_points r.required_point_states
    → is_free (route_of s i) ≡ false
    → (request_route_decision (release_route (some s) i).0 j).1 ≡ go
release-request_granted s i j q r v ne a b idle clear locked held =
    rw (release_route_held s i q a held) (
      (request_route_decision-go_iff (set_route s i free) j r b).1 (record {
        idle = rw (route_of-set_ne s i j free ne) idle;
        clear = clear;
        locked = locked;
        alone = λ k x other d sh. freed k (
            omega
              (arith, get_definition_lt k x d, get_definition_lt i q a, get_definition_lt j r b));
      }))
  where
    freed : (k : RouteId) → k ≡ i → route_state_blocks (route_of (set_route s i free) k) ≡ false
    freed k e = rw (e, route_of-set_self s i free v.entries (get_definition_lt i q a)) free_idle
