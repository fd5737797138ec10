-- ===== src/Command.antt =====
-- The command loop of `main` in src/cloud_ixl/c/main.c: one round for each request of the operator,
-- which decides on the route, sends the aspect and waits for the confirmation. The messages that it
-- prints are left out.
pub mod Effect
pub mod Loop
mod Tests
use tfm_cloud_ixl_rasta.Prelude.{
  ℕ, ◌==◌, Bool, true, false, Option, none, some, List, [], ◌∷◌, if◌then◌else◌,
}
use tfm_cloud_ixl_rasta.Ixl.State.{
  RouteDecision, stop, go, RouteId, SignalAspect, IxlState, cloud_ixl_state_init,
}
use tfm_cloud_ixl_rasta.Ixl.Logic.{request_route_decision, release_route, ls_request_command}
use tfm_cloud_ixl_rasta.Sci.Icd.{luminosity_day, luminosity_night}
use tfm_cloud_ixl_rasta.Sci.Scils.{Scils, Outgoing}
use tfm_cloud_ixl_rasta.Sci.Adapter.{
  cloud_ixl_build_signal_aspect_payload, SendResult, build_error, send_error, success_scils,
  cloud_ixl_scils_send_signal_aspect, cloud_ixl_scils_send_luminosity,
}
use tfm_cloud_ixl_rasta.Pdi.State.{
  PdiState, command_confirmed, command_mismatch, command_rejected, failed, Pdi, set_pdi_state,
  begin_signal_confirmation, fail_pending_signal_confirmation,
}
use tfm_cloud_ixl_rasta.Pdi.Receive.{oc_sci_name}
use tfm_cloud_ixl_rasta.Pdi.Events.{WaitResult, woken, confirmation_round, Event, step}

-- `RouteCommand` and `RouteRequest`.
pub data RouteCommand : Type 0 where
  request release signal_aspect luminosity quit : RouteCommand

pub record RouteRequest : Type 0 where
  pub command : RouteCommand
  pub route_id : RouteId
  pub aspect : SignalAspect
  pub luminosity : ℕ

unfoldable pub icd_luminosity_from_signal_luminosity : ℕ → ℕ
icd_luminosity_from_signal_luminosity l = if l == 2 then luminosity_night else luminosity_day

-- What `main` keeps: the interlocking, and the globals of the PDI connection.
pub record Central : Type 0 where
  pub ixl : IxlState
  pub pdi : Pdi

-- The next round, the end of the loop with an exit code, or a wait that has not ended yet.
pub data Outcome : Type 0 where
  next : Outcome
  exits : ℕ → Outcome
  waiting : Outcome

-- What the other threads do in a round: before the command is begun, before the first look at the
-- state, and up to each return of `pthread_cond_timedwait`, with what that returns.
pub record Others : Type 0 where
  pub before : List Event
  pub sent : List Event
  pub waits : List (List Event × WaitResult)

-- The state of the interlocking after a call, whose argument is not NULL.
abbrev pub state_after : IxlState → Option IxlState → IxlState
state_after s none = s
state_after s (some s') = s'

-- The state after the decision, the aspect to be commanded, and whether a release is requested.
unfoldable pub decide : RouteRequest → IxlState → IxlState × SignalAspect × Bool
decide r s = elim r.command [
  | signal_aspect ↦ (s, r.aspect, false)
  | release ↦ (s, ls_request_command stop, true)
  | _ ↦
      let (s', decision) = request_route_decision (some s) r.route_id in
      (state_after s s', ls_request_command decision, false)
]

-- The `switch` on the result of a command.
unfoldable pub finish_command : Bool → RouteId → PdiState → Central → Central × Outcome
finish_command release_requested id command_confirmed c =
    if release_requested
    then (record c { ixl = state_after c.ixl (release_route (some c.ixl) id).0 }, next)
    else (c, next)
finish_command release_requested id command_mismatch c = (c, next)
finish_command release_requested id command_rejected c = (c, next)
finish_command release_requested id failed c = (c, exits 1)
finish_command release_requested id _ c = (record c { pdi = set_pdi_state failed c.pdi }, exits 1)

-- What follows `wait_for_signal_confirmation`.
unfoldable pub after_wait : Bool → RouteId → IxlState → Pdi × Option PdiState → Central × Outcome
after_wait release_requested id s (p, none) = (record { ixl = s; pdi = p }, waiting)
after_wait release_requested id s (p, some result) =
    finish_command release_requested id result (record { ixl = s; pdi = p })

-- The `switch` on the result of a luminosity command.
unfoldable pub after_luminosity : Central → SendResult → Central × Outcome
after_luminosity c success_scils = (c, next)
after_luminosity c _ = (c, exits 1)

-- Whether the loop goes on after a round.
unfoldable pub carry_on : Outcome → Central → Central → Central
carry_on next later now = later
carry_on (exits code) later now = now
carry_on waiting later now = now

module _ (big : Bool) (ls : Scils) where
  unfoldable pub run_events : List Event → Pdi → Pdi
  run_events [] p = p
  run_events (e ∷ es) p = run_events es (step big ls e p).0

  -- One return of `pthread_cond_timedwait` after the other; `none` while it still waits.
  unfoldable pub wait_rounds :
      List (List Event × WaitResult) → Pdi × Option PdiState → Pdi × Option PdiState
  wait_rounds ws (p, some result) = (p, some result)
  wait_rounds [] (p, none) = (p, none)
  wait_rounds ((es, w) ∷ ws) (p, none) = wait_rounds ws (confirmation_round w (run_events es p))

  -- The loop looks at the state before it waits for the first time.
  unfoldable pub wait_for_signal_confirmation : Others → Pdi → Pdi × Option PdiState
  wait_for_signal_confirmation others p =
      wait_rounds others.waits (confirmation_round woken (run_events others.sent p))

  -- Once the send has answered.
  unfoldable pub after_send_command :
      Others → Bool → RouteId → IxlState → Pdi → SendResult → Central × Outcome
  unfolding wait_for_signal_confirmation
  after_send_command others release_requested id s p success_scils =
      after_wait release_requested id s (wait_for_signal_confirmation others p)
  after_send_command others release_requested id s p _ =
      (record { ixl = s; pdi = fail_pending_signal_confirmation p }, exits 1)

  -- Once the payload is built: it is written whether or not the command can be begun.
  unfoldable pub send_command :
      Others
      → Bool
      → RouteId
      → SignalAspect
      → IxlState
      → Pdi
      → Bool × Option (List ℕ)
      → Central × Outcome
  unfolding after_send_command
  send_command others release_requested id aspect s p (true, some bytes) =
      let (p', begun) = begin_signal_confirmation (record p { expected = bytes }) in
      if begun
      then after_send_command others release_requested id s p'
          (cloud_ixl_scils_send_signal_aspect big (some ls) (some oc_sci_name) aspect).0
      else (record { ixl = s; pdi = p' }, exits 1)
  send_command others release_requested id aspect s p _ = (record { ixl = s; pdi = p }, exits 1)

  -- One round of the loop.
  unfoldable pub command_round : RouteRequest → Others → Central → Central × Outcome
  command_round r others c = elim r.command [
    | quit ↦ (c, exits 0)
    | luminosity ↦
        after_luminosity c
          (cloud_ixl_scils_send_luminosity big (some ls) (some oc_sci_name)
            (icd_luminosity_from_signal_luminosity r.luminosity)).0
    | _ ↦
        let (s, aspect, release_requested) = decide r c.ixl in
        let p = run_events others.before c.pdi in
        send_command others release_requested r.route_id aspect s p
          (cloud_ixl_build_signal_aspect_payload aspect (some p.expected))
  ]

  -- The loop over the requests of the operator, from the state of the interlocking that `main`
  -- prepares: it goes on as long as a round asks for the next.
  unfoldable pub command_loop : List (RouteRequest × Others) → Central → Central
  unfolding carry_on
  command_loop [] c = c
  command_loop ((r, others) ∷ rest) c =
      let (c', outcome) = command_round r others c in carry_on outcome (command_loop rest c') c'
