-- ===== src/Command/Effect.antt =====
-- What one round of the command loop may do to the routes, and what follows for every run of it.
use tfm_cloud_ixl_rasta.Prelude.{
  ℕ, ◌≡◌, ◌⊎◌, inl, inr, refl, ◌∙◌, ap, Bool, true, false, Bool-cases, Option, none, some, List,
  arith,
}
use tfm_cloud_ixl_rasta.Ixl.State.{go, RouteId, SignalAspect, IxlState, parada, reserved}
use tfm_cloud_ixl_rasta.Ixl.Logic.{
  request_route_decision, release_route, ls_request_command, set_route,
}
use tfm_cloud_ixl_rasta.Ixl.Logic.Grant.{request_route_decision_effect}
use tfm_cloud_ixl_rasta.Sci.Scils.{Scils}
use tfm_cloud_ixl_rasta.Sci.Adapter.{
  payload_of, cloud_ixl_build_signal_aspect_payload, SendResult, build_error, send_error,
  success_scils, cloud_ixl_scils_send_signal_aspect,
}
use tfm_cloud_ixl_rasta.Pdi.State.{
  PdiState, command_confirmed, wait_confirmation, Pdi, begin_signal_confirmation, disconnected,
  wait_rasta_handshake, wait_version_response, wait_initialisation_start, receiving_initial_status,
  established, command_mismatch, command_rejected, failed,
}
use tfm_cloud_ixl_rasta.Pdi.Receive.{oc_sci_name}
use tfm_cloud_ixl_rasta.Command.{
  RouteCommand, request, release, signal_aspect, luminosity, quit, RouteRequest, Central, Others,
  state_after, decide, after_luminosity, finish_command, after_wait, run_events,
  wait_for_signal_confirmation, after_send_command, send_command, command_round,
}

-- The aspect `a` was commanded by a round that begins in the state `pdi` and its payload confirmed:
-- the payload of the aspect is noted, the state after the events before it accepts a new command, the
-- send of the command to the Object Controller succeeded, and the wait from there on ended with the
-- confirmation.
abbrev pub Confirmed : Bool → Scils → Others → Pdi → SignalAspect → Type 0
Confirmed big ls others pdi a =
    (bytes : List ℕ) × (payload_of a ≡ some bytes)
    × (let before = run_events big ls others.before pdi in
        let (p, begun) = begin_signal_confirmation (record before { expected = bytes }) in
        (begun ≡ true)
        × (p.state ≡ wait_confirmation)
        × (p.expected ≡ bytes)
        × ((cloud_ixl_scils_send_signal_aspect big (some ls) (some oc_sci_name) a).0
            ≡ success_scils)
        × ((wait_for_signal_confirmation big ls others p).1 ≡ some command_confirmed))

finish_effect :
    (release_requested : Bool) (id : RouteId) (result : PdiState) (c : Central)
    → ((finish_command release_requested id result c).0.ixl ≡ c.ixl)
      ⊎ ((release_requested ≡ true)
          × (result ≡ command_confirmed)
          × ((finish_command release_requested id result c).0.ixl
              ≡ state_after c.ixl (release_route (some c.ixl) id).0))
unfolding finish_command
finish_effect true id command_confirmed c = inr (refl, refl, refl)
finish_effect false id command_confirmed c = inl refl
finish_effect r id disconnected c = inl refl
finish_effect r id wait_rasta_handshake c = inl refl
finish_effect r id wait_version_response c = inl refl
finish_effect r id wait_initialisation_start c = inl refl
finish_effect r id receiving_initial_status c = inl refl
finish_effect r id established c = inl refl
finish_effect r id wait_confirmation c = inl refl
finish_effect r id command_mismatch c = inl refl
finish_effect r id command_rejected c = inl refl
finish_effect r id failed c = inl refl

after_wait_effect :
    (release_requested : Bool) (id : RouteId) (s : IxlState) (w : Pdi × Option PdiState)
    → ((after_wait release_requested id s w).0.ixl ≡ s)
      ⊎ ((release_requested ≡ true)
          × (w.1 ≡ some command_confirmed)
          × ((after_wait release_requested id s w).0.ixl
              ≡ state_after s (release_route (some s) id).0))
unfolding after_wait
after_wait_effect r id s (p, none) = inl refl
after_wait_effect r id s (p, some result) =
    elim (finish_effect r id result (record { ixl = s; pdi = p })) [
      | inl e ↦ inl e
      | inr (t, c, e) ↦ inr (t, ap some c, e)
    ]

module _ (big : Bool) (ls : Scils) (others : Others) where
  after_send_effect :
      (release_requested : Bool) (id : RouteId) (s : IxlState) (p : Pdi) (sent : SendResult)
      → ((after_send_command big ls others release_requested id s p sent).0.ixl ≡ s)
        ⊎ ((release_requested ≡ true)
            × (sent ≡ success_scils)
            × ((wait_for_signal_confirmation big ls others p).1 ≡ some command_confirmed)
            × ((after_send_command big ls others release_requested id s p sent).0.ixl
                ≡ state_after s (release_route (some s) id).0))
  unfolding after_send_command
  after_send_effect r id s p success_scils =
      elim (after_wait_effect r id s (wait_for_signal_confirmation big ls others p)) [
        | inl e ↦ inl e
        | inr (t, w, e) ↦ inr (t, refl, w, e)
      ]
  after_send_effect r id s p build_error = inl refl
  after_send_effect r id s p send_error = inl refl

  -- `begin_signal_confirmation`, once it has answered yes.
  begun_pending :
      (p : Pdi)
      → (begin_signal_confirmation p).1 ≡ true
      → ((begin_signal_confirmation p).0.state ≡ wait_confirmation)
        × ((begin_signal_confirmation p).0.expected ≡ p.expected)
  unfolding begin_signal_confirmation
  begun_pending p h = ground arith

  built_payload :
      (a : SignalAspect) (old bytes : List ℕ)
      → cloud_ixl_build_signal_aspect_payload a (some old) ≡ (true, some bytes)
      → payload_of a ≡ some bytes
  unfolding cloud_ixl_build_signal_aspect_payload
  built_payload a old bytes h = ground arith

  send_effect :
      (release_requested : Bool) (id : RouteId) (a : SignalAspect) (s : IxlState) (pdi : Pdi)
      (built : Bool × Option (List ℕ))
      → let p = run_events big ls others.before pdi in
        cloud_ixl_build_signal_aspect_payload a (some p.expected) ≡ built
        → ((send_command big ls others release_requested id a s p built).0.ixl ≡ s)
          ⊎ ((release_requested ≡ true)
              × Confirmed big ls others pdi a
              × ((send_command big ls others release_requested id a s p built).0.ixl
                  ≡ state_after s (release_route (some s) id).0))
  unfolding send_command
  send_effect r id a s pdi (false, o) h = inl refl
  send_effect r id a s pdi (true, none) h = inl refl
  send_effect r id a s pdi (true, some bytes) h =
      let p = run_events big ls others.before pdi in
      let q = begin_signal_confirmation (record p { expected = bytes }) in
      elim (Bool-cases q.1) [
        | inr idle ↦ inl (rw (idle) refl)
        | inl begun ↦
            let (pending, kept) = begun_pending (record p { expected = bytes }) begun in
            elim (after_send_effect r id s q.0
              (cloud_ixl_scils_send_signal_aspect big (some ls) (some oc_sci_name) a).0) [
                | inl e ↦ inl (rw (begun) e)
                | inr (t, ok, w, e) ↦ inr (
                  t,
                  (bytes, built_payload a p.expected bytes h, (begun, pending, kept, ok, w)),
                  rw (begun) e,
                )
              ]
      ]

  unreleased :
      (id : RouteId) (a : SignalAspect) (s : IxlState) (pdi : Pdi)
      → let p = run_events big ls others.before pdi in
        (send_command big ls others false id a s p
          (cloud_ixl_build_signal_aspect_payload a (some p.expected))).0.ixl
        ≡ s
  unreleased id a s pdi = elim (send_effect false id a s pdi _ refl) [
    | inl e ↦ e
    | inr (t, k, e) ↦ cc
  ]

  after_luminosity_effect :
      (c : Central) (sent : SendResult) → (after_luminosity c sent).0.ixl ≡ c.ixl
  unfolding after_luminosity
  after_luminosity_effect c success_scils = refl
  after_luminosity_effect c build_error = refl
  after_luminosity_effect c send_error = refl

  round_effect :
      (k : RouteCommand) (id : RouteId) (a : SignalAspect) (l : ℕ) (c : Central)
      → let r : RouteRequest = record { command = k; route_id = id; aspect = a; luminosity = l } in
        ((command_round big ls r others c).0.ixl ≡ c.ixl)
        ⊎ ((k ≡ request)
            × ((request_route_decision (some c.ixl) id).1 ≡ go)
            × ((command_round big ls r others c).0.ixl ≡ set_route c.ixl id reserved))
        ⊎ ((k ≡ release)
            × Confirmed big ls others c.pdi parada
            × ((command_round big ls r others c).0.ixl
                ≡ state_after c.ixl (release_route (some c.ixl) id).0))
  unfolding command_round decide ls_request_command
  round_effect quit id a l c = inl refl
  round_effect luminosity id a l c = inl (after_luminosity_effect c _)
  round_effect signal_aspect id a l c = inl (unreleased id a c.ixl c.pdi)
  round_effect release id a l c = elim (send_effect true id parada c.ixl c.pdi _ refl) [
    | inl e ↦ inl e
    | inr (t, k, e) ↦ inr (inr (refl, k, e))
  ]
  round_effect request id a l c = elim (request_route_decision_effect c.ixl id) [
    | inl (d, f, e) ↦
        inr
          (inl (refl, ap (λ x. x.1) e, unreleased id _ _ c.pdi ∙ ap (λ x. state_after c.ixl x.0) e))
    | inr e ↦ inl (unreleased id _ _ c.pdi ∙ ap (λ x. state_after c.ixl x.0) e)
  ]

  -- A round of the command loop leaves every route as it was; or it was asked for a route of the
  -- table, which was granted and is reserved now; or it was asked for a release, the command for the
  -- aspect PARADA was begun and sent to the Object Controller with success, the wait that followed
  -- ended with the confirmation of its payload, and then the state is the one that the release makes.
  pub command_round_effect :
      (r : RouteRequest) (c : Central)
      → ((command_round big ls r others c).0.ixl ≡ c.ixl)
        ⊎ ((r.command ≡ request)
            × ((request_route_decision (some c.ixl) r.route_id).1 ≡ go)
            × ((command_round big ls r others c).0.ixl ≡ set_route c.ixl r.route_id reserved))
        ⊎ ((r.command ≡ release)
            × Confirmed big ls others c.pdi parada
            × ((command_round big ls r others c).0.ixl
                ≡ state_after c.ixl (release_route (some c.ixl) r.route_id).0))
  command_round_effect r c = round_effect r.command r.route_id r.aspect r.luminosity c
