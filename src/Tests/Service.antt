-- ===== src/Tests/Service.antt =====
-- The managed service on the bench.
use xeryon_ether_cat.Base.{
  ◌<◌, pos, some, none, List, [], ◌∷◌, ◌≡◌, refl, true, false, arith, ◌⊎◌, ◌+◌, ◌*◌, ◌≤ℤ◌, ◌≤◌, All,
}
use xeryon_ether_cat.Shim.Init.{zero_txpdo}
use xeryon_ether_cat.Shim.Init.Resources.{Released}
use xeryon_ether_cat.Shim.Pdo.{DriveTxPdo}
use xeryon_ether_cat.Shim.Pdo.Codec.{tx_image, status0, status1, status2}
use xeryon_ether_cat.Shim.Api.{linux, api_of}
use xeryon_ether_cat.Service.Act.{Does}
use xeryon_ether_cat.Service.Client.{soem_client}
use xeryon_ether_cat.Service.Formatter.{to_bit_mask, drive_tx_pdo_to_bytes}
use xeryon_ether_cat.Service.Formatter.Laws.{drive_tx_pdo_to_bytes-tx_image}
use xeryon_ether_cat.Service.Errors.{DriveErrorCode, DriveError, try_decode_error}
use xeryon_ether_cat.Service.Errors.Decode.{has_fault, rank, try_decode_error_heaviest}
use xeryon_ether_cat.Service.Command.{
  PendingCommand, ack_only, position_reached, completed, evaluate, evaluate_position_reached,
}
use xeryon_ether_cat.Service.Command.Settles.{watch, settles, watch-settles}
use xeryon_ether_cat.Service.Axis.{Axis, Moment, new_axis, process_axis}
use xeryon_ether_cat.Service.Axis.Resolves.{Resolved, process_axis-Resolved}
use xeryon_ether_cat.Service.Axis.Completes.{
  completions, completes, told_if, completions-process_axis,
}
use xeryon_ether_cat.Service.Axis.Keeps.{IsCommand}
use xeryon_ether_cat.Service.State.{
  Service, Request, new_service, serve, serve_all, submit, cancel, latch, Cycle, zero_health,
}
use xeryon_ether_cat.Service.State.Keeps.{IsCycle}
use xeryon_ether_cat.Service.Methods.{
  Method, move_absolute, send_raw_command, latched, refused, execute, call_method, command_axis,
}
use xeryon_ether_cat.Service.Methods.Latched.{call_method-latched}
use xeryon_ether_cat.Service.Loop.{Options, run_service}
use xeryon_ether_cat.Service.Loop.Lives.{Ended, run_service-Released}
use xeryon_ether_cat.Tests.Bench.{
  bench, fresh, fresh-Released, bench-KeepsMapping, bench-MapsInside,
}
use xeryon_ether_cat.Tests.Pdo.{reported, reported-IsTxPdo}

drive_tx_pdo_to_bytes-tx_image_example :
    (to_bit_mask reported ≡ status0 reported + 256 * status1 reported + 65536 * status2 reported)
    × (drive_tx_pdo_to_bytes reported ≡ tx_image reported)
drive_tx_pdo_to_bytes-tx_image_example = drive_tx_pdo_to_bytes-tx_image reported reported-IsTxPdo

-- The drive reports thermal protection 2, an encoder error and an emergency stop.
try_decode_error_heaviest_example :
    ((try_decode_error reported ≡ none)
      × ((c : DriveErrorCode) → (rank c < 7) → has_fault c reported ≡ false))
    ⊎ ((e : DriveError) × (try_decode_error reported ≡ some e)
        × (rank e.code < 7)
        × (has_fault e.code reported ≡ true)
        × ((c : DriveErrorCode) → has_fault c reported ≡ true → rank e.code ≤ rank c))
try_decode_error_heaviest_example = try_decode_error_heaviest reported

-- A drive that reports ForceZero and an error of its compensation alone is told to have no fault.
untold : try_decode_error (record zero_txpdo { force_zero = 1; error_compensation = 1 }) ≡ none
unfolding try_decode_error
untold = refl

-- "DPOS" to 1000, without a timeout.
abbrev pub to_thousand : PendingCommand
to_thousand = record {
  ticket = 7;
  slave_index = pos 0;
  keyword = b'D' ∷ b'P' ∷ b'O' ∷ b'S' ∷ [];
  parameter = pos 1000;
  velocity = pos 5000;
  acceleration = 100;
  deceleration = 200;
  requires_ack = true;
  completion = position_reached;
  timeout = pos 0;
  acked = false;
  cancelled = false;
  started = 0;
  previous_position_reached = false;
  previous_motor_on = false;
  edge_detection_initialized = false;
}

abbrev moving : DriveTxPdo
moving = record zero_txpdo { motor_on = 1; amplifiers_enabled = 1 }

abbrev arrived : DriveTxPdo
arrived = record moving { actual_position = pos 1000; position_reached = 1 }

-- A drive that is there from the start does not end the command; the next state does.
arrives_second : watch to_thousand ((1, arrived) ∷ (2, arrived) ∷ []) ≡ completed
unfolding watch evaluate evaluate_position_reached
arrives_second = refl

watch-settles_example :
    ((watch to_thousand ((1, moving) ∷ (2, arrived) ∷ []) ≡ completed)
      → settles to_thousand moving ((2, arrived) ∷ []) ≡ true)
    × (pos 0 ≤ℤ pos 0
        → settles to_thousand moving ((2, arrived) ∷ []) ≡ true
        → watch to_thousand ((1, moving) ∷ (2, arrived) ∷ []) ≡ completed)
watch-settles_example = watch-settles to_thousand 1 moving ((2, arrived) ∷ []) refl refl

abbrev quiet : Moment
quiet = record { now = 5; stale = λ i. zero_txpdo; throws = λ e. false }

abbrev busy_axis : Axis
busy_axis = record new_axis { active = some to_thousand }

process_axis-Resolved_example :
    let r = process_axis quiet 1 moving zero_health busy_axis in
    Resolved 5 zero_health to_thousand r.0 r.1
process_axis-Resolved_example =
    process_axis-Resolved quiet 1 moving zero_health to_thousand busy_axis refl refl (λ e. refl)

-- A move that has seen the drive run is told to have completed once it has arrived.
abbrev half_way : PendingCommand
half_way = record to_thousand {
  acked = true;
  previous_motor_on = true;
  edge_detection_initialized = true;
}

tells_completed : told_if (completes 5 arrived zero_health half_way) 7 ≡ 7 ∷ []
tells_completed = refl

completions-process_axis_example :
    completions
      (process_axis quiet 1 arrived zero_health (record new_axis { active = some half_way })).1
    ≡ told_if (completes 5 arrived zero_health half_way) 7
completions-process_axis_example =
    completions-process_axis quiet 1 arrived zero_health half_way
      (record new_axis { active = some half_way }) refl (λ e. refl)

-- A service with one axis, whose drive is enabled and referenced, and which was stopped.
abbrev stopped : Service
stopped = record (new_service "e0" (pos 1) (record new_axis { stop_latch = true } ∷ [])) {
  snapshot = record {
    health = zero_health;
    drive_states = record moving { encoder_valid = 1 } ∷ [];
  };
}

abbrev to_target : Method
to_target = move_absolute (pos 1000) (pos 5000) 100 200 (pos 0)

refuses_stopped : call_method (pos 100) true 7 stopped (pos 1) to_target ≡ refused latched
unfolding call_method command_axis
refuses_stopped = refl

-- The same motion as a raw command is passed on.
raw_passes :
    call_method
      (pos 100)
      true
      7
      stopped
      (pos 1)
      (send_raw_command (b'd' ∷ b'p' ∷ b'o' ∷ b's' ∷ []) (pos 1000) (pos 5000) 100 200 true none)
    ≡ execute (record to_thousand { completion = ack_only })
unfolding call_method command_axis
raw_passes = refl

-- After ENBL=1 has completed it moves again.
moves_again :
    call_method (pos 100) true 7 (serve (latch 0 false) stopped) (pos 1) to_target
    ≡ execute (record to_thousand { timeout = pos 100 })
unfolding call_method command_axis
moves_again = refl

pub to_thousand-IsCommand : IsCommand to_thousand
to_thousand-IsCommand = record {
  parameter = omega arith;
  velocity = omega arith;
  acceleration = omega arith;
  deceleration = omega arith;
}

abbrev defaults : Options
defaults = record {
  exchange_timeout_microseconds = pos 100000;
  wkc_recovery_threshold = pos 3;
  recovery_timeout_milliseconds = pos 5000;
}

-- A command comes, and is cancelled in the next cycle.
abbrev two_cycles : List Cycle
two_cycles =
    record { moment = quiet; first = submit to_thousand ∷ []; second = []; third = [] }
    ∷ record { moment = quiet; first = []; second = cancel 7 0 ∷ []; third = [] }
    ∷ []

two_cycles-AreCycles : All IsCycle two_cycles
two_cycles-AreCycles = (
  record { first = (to_thousand-IsCommand, tt); second = tt; third = tt },
  (record { first = tt; second = (tt, tt); third = tt }, tt),
)

run_service-Released_example :
    Does
      (run_service (soem_client (api_of ⦃p = bench (pos 3)⦄ linux)) defaults "e0" two_cycles)
      fresh
      (λ r t. Released t × Ended defaults r)
run_service-Released_example =
    run_service-Released ⦃p = bench (pos 3)⦄ defaults linux "e0" two_cycles fresh
      (bench-KeepsMapping (pos 3)) (bench-MapsInside (pos 3)) (omega arith) two_cycles-AreCycles
      fresh-Released

-- An axis that is free is stopped, and others cancel a command and free another axis.
abbrev calm : Service
calm = serve (latch 0 false) stopped

abbrev asked : List Request
asked = cancel 7 0 ∷ latch 1 false ∷ submit to_thousand ∷ []

call_method-latched_example : ¬ (
    call_method (pos 100) true 8 (serve_all asked (serve (latch 0 true) calm)) (pos 1) to_target
    ≡ execute to_thousand)
call_method-latched_example =
    call_method-latched (pos 100) 8 calm 0 asked to_target to_thousand (omega arith)
      (tt, (λ e. ground (arith, e), (tt, tt))) (ground arith) refl
