-- ===== src/Command/Tests.antt =====
-- A round of the command loop at a concrete request.
use tfm_cloud_ixl_rasta.Prelude.{◌≡◌, ◌⊎◌, true, false, some, [], ◌∷◌}
use tfm_cloud_ixl_rasta.Ixl.State.{
  go, ruta_ab, ruta_ac, via_libre, parada, reserved, free, cloud_ixl_state_init,
}
use tfm_cloud_ixl_rasta.Ixl.Logic.{request_route_decision, release_route, set_route, route_of}
use tfm_cloud_ixl_rasta.Ixl.Logic.Safety.{IsSafe, cloud_ixl_state_init-IsSafe}
use tfm_cloud_ixl_rasta.Sci.Scils.{Scils}
use tfm_cloud_ixl_rasta.Pdi.State.{Pdi, established}
use tfm_cloud_ixl_rasta.Pdi.Receive.{ixl_sci_name}
use tfm_cloud_ixl_rasta.Pdi.Events.{timed_out}
use tfm_cloud_ixl_rasta.Command.{
  request, release, RouteRequest, Central, Others, state_after, command_round, command_loop,
}
use tfm_cloud_ixl_rasta.Command.Effect.{Confirmed, command_round_effect}
use tfm_cloud_ixl_rasta.Command.Loop.{command_loop-IsSafe, ruta_ac_stays_free}

abbrev library : Scils
library = record {
  sci_name = ixl_sci_name;
  rasta_id_of = λ key. some 0x61;
  on_version_request_received = false;
  on_status_request_received = false;
  on_status_begin_received = true;
  on_status_finish_received = true;
}

abbrev opened : Pdi
opened = record { state = established; expected = [] }

abbrev start : Central
start = record { ixl = cloud_ixl_state_init; pdi = opened }

abbrev ask_ab : RouteRequest
ask_ab = record { command = request; route_id = ruta_ab; aspect = via_libre; luminosity = 1 }

abbrev give_up_ab : RouteRequest
give_up_ab = record ask_ab { command = release }

-- No feedback comes before the time is up.
abbrev silence : Others
silence = record { before = []; sent = []; waits = ([], timed_out) ∷ [] }

command_round_effect_example :
    ((command_round false library ask_ab silence start).0.ixl ≡ start.ixl)
    ⊎ ((ask_ab.command ≡ request)
        × ((request_route_decision (some start.ixl) ruta_ab).1 ≡ go)
        × ((command_round false library ask_ab silence start).0.ixl
            ≡ set_route start.ixl ruta_ab reserved))
    ⊎ ((ask_ab.command ≡ release)
        × Confirmed false library silence start.pdi parada
        × ((command_round false library ask_ab silence start).0.ixl
            ≡ state_after start.ixl (release_route (some start.ixl) ruta_ab).0))
command_round_effect_example = command_round_effect false library silence ask_ab start

command_loop-IsSafe_example :
    IsSafe (command_loop false library ((ask_ab, silence) ∷ (give_up_ab, silence) ∷ []) start).ixl
command_loop-IsSafe_example =
    command_loop-IsSafe false library ((ask_ab, silence) ∷ (give_up_ab, silence) ∷ []) start
      cloud_ixl_state_init-IsSafe

ruta_ac_stays_free_example :
    route_of
      (command_loop false library ((ask_ab, silence) ∷ (give_up_ab, silence) ∷ []) start).ixl
      ruta_ac
    ≡ free
ruta_ac_stays_free_example =
    ruta_ac_stays_free false library ((ask_ab, silence) ∷ (give_up_ab, silence) ∷ []) opened
