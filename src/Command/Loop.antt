-- ===== src/Command/Loop.antt =====
-- Every run of the command loop: the interlocking stays safe, and the route whose points the program
-- never sets is never held.
use tfm_cloud_ixl_rasta.Prelude.{
  ◌≡◌, ◌≢◌, inl, inr, refl, sym, ◌∙◌, ap, subst, Bool, Option, none, some, List, [], ◌∷◌, length,
  length-set, get_or-set_self, get_or-set_ne, ℕ_discrete, arith,
}
use tfm_cloud_ixl_rasta.Ixl.State.{
  stop, go, RouteId, IxlState, left, right, reserved, free, invalid, ruta_ac, cloud_ixl_state_init,
  cloud_ixl_get_route_definition,
}
use tfm_cloud_ixl_rasta.Ixl.Logic.{
  request_route_decision, release_route, set_route, route_of, point_of,
}
use tfm_cloud_ixl_rasta.Ixl.Logic.Grant.{
  request_route_decision_effect, request_route_decision-go_iff,
}
use tfm_cloud_ixl_rasta.Ixl.Logic.Safety.{
  IsSafe, IsSafeAt, request_route_decision-IsSafe, release_route-IsSafe, release_route_effect,
}
use tfm_cloud_ixl_rasta.Sci.Scils.{Scils}
use tfm_cloud_ixl_rasta.Pdi.State.{Pdi}
use tfm_cloud_ixl_rasta.Command.{
  RouteRequest, Central, Outcome, next, exits, waiting, Others, state_after, carry_on,
  command_round, command_loop,
}
use tfm_cloud_ixl_rasta.Command.Effect.{command_round_effect}

state_after-IsSafe :
    (s : IxlState) (o : Option IxlState) → IsSafe s → IsSafeAt o → IsSafe (state_after s o)
state_after-IsSafe s none h k = h
state_after-IsSafe s (some s') h k = k

granted-IsSafe :
    (s : IxlState) (id : RouteId)
    → IsSafe s
    → (request_route_decision (some s) id).1 ≡ go
    → IsSafe (set_route s id reserved)
granted-IsSafe s id h d = elim (request_route_decision_effect s id) [
  | inl (r, f, e) ↦ subst IsSafeAt (ap (λ x. x.0) e) (request_route_decision-IsSafe s id h)
  | inr e ↦ absurd (stop_ne_go (sym (ap (λ x. x.1) e) ∙ d))
]
  where
    stop_ne_go : stop ≢ go
    stop_ne_go h = cc

-- The point stands left, and RUTA_AC, which needs it right, is free.
abbrev Unset : IxlState → Type 0
Unset s = (length s.route ≡ 2) × (point_of s 0 ≡ left) × (route_of s ruta_ac ≡ free)

granted-Unset :
    (s : IxlState) (id : RouteId)
    → Unset s
    → (request_route_decision (some s) id).1 ≡ go
    → Unset (set_route s id reserved)
unfolding cloud_ixl_get_route_definition
granted-Unset s id (size, stands, idle) d = elim (ℕ_discrete id 1) [
  | yes e ↦
      let g =
        (request_route_decision-go_iff s 1 _ refl).0
          (subst (λ i. (request_route_decision (some s) i).1 ≡ go) e d) in
      absurd (left_ne_right (sym stands ∙ g.locked.0))
  | no ne ↦ (
    length-set s.route id reserved ∙ size,
    stands,
    get_or-set_ne s.route id 1 reserved invalid ne ∙ idle,
  )
]
  where
    left_ne_right : left ≢ right
    left_ne_right h = cc

released-Unset :
    (s : IxlState) (id : RouteId) → Unset s → Unset (state_after s (release_route (some s) id).0)
released-Unset s id (size, stands, idle) = elim (release_route_effect s id) [
  | inl (r, e, held, f) ↦ rw (f) (elim (ℕ_discrete id 1) [
    | yes same ↦ (
      length-set s.route id free ∙ size,
      stands,
      rw (same) (get_or-set_self s.route 1 free invalid (omega (arith, size))),
    )
    | no ne ↦ (
      length-set s.route id free ∙ size,
      stands,
      get_or-set_ne s.route id 1 free invalid ne ∙ idle,
    )
  ])
  | inr (why, f) ↦ rw (f) (size, stands, idle)
]

module _ (big : Bool) (ls : Scils) where
  -- What a grant and a confirmed release keep of the interlocking, every run of the loop keeps.
  loop_keeps :
      (P : IxlState → Type 0)
      → ((s : IxlState) (id : RouteId)
          → P s
          → (request_route_decision (some s) id).1 ≡ go
          → P (set_route s id reserved))
      → ((s : IxlState) (id : RouteId) → P s → P (state_after s (release_route (some s) id).0))
      → (rounds : List (RouteRequest × Others)) (c : Central) → P c.ixl
      → P (command_loop big ls rounds c).ixl
  unfolding command_loop carry_on
  loop_keeps P granted released [] c h = h
  loop_keeps P granted released ((r, others) ∷ rest) c h =
      carry_on-keeps (command_round big ls r others c).1 _ _
        (loop_keeps P granted released rest _ after) after
    where
      after : P (command_round big ls r others c).0.ixl
      after = elim (command_round_effect big ls others r c) [
        | inl e ↦ subst P (sym e) h
        | inr (inl (k, d, e)) ↦ subst P (sym e) (granted c.ixl r.route_id h d)
        | inr (inr (k, w, e)) ↦ subst P (sym e) (released c.ixl r.route_id h)
      ]

      carry_on-keeps :
          (o : Outcome) (later now : Central)
          → P later.ixl
          → P now.ixl
          → P (carry_on o later now).ixl
      carry_on-keeps next later now h k = h
      carry_on-keeps (exits n) later now h k = k
      carry_on-keeps waiting later now h k = k

  -- From a safe state of the interlocking, every run of the command loop leads to a safe state,
  -- whatever is asked for and whatever the other threads do meanwhile.
  pub command_loop-IsSafe :
      (rounds : List (RouteRequest × Others)) (c : Central)
      → IsSafe c.ixl
      → IsSafe (command_loop big ls rounds c).ixl
  command_loop-IsSafe =
      loop_keeps IsSafe granted-IsSafe
        (λ s id h. state_after-IsSafe s _ h (release_route-IsSafe s id h))

  -- From the state that `main` prepares, no run of the command loop ever has RUTA_AC in another
  -- state than free: its point stands left, where the route needs it right, and is never moved.
  pub ruta_ac_stays_free :
      (rounds : List (RouteRequest × Others)) (p : Pdi)
      → route_of
          (command_loop big ls rounds (record { ixl = cloud_ixl_state_init; pdi = p })).ixl
          ruta_ac
        ≡ free
  unfolding cloud_ixl_state_init
  ruta_ac_stays_free rounds p =
      (loop_keeps Unset granted-Unset released-Unset rounds
        (record { ixl = cloud_ixl_state_init; pdi = p }) (refl, refl, refl)).2
