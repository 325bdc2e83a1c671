-- ===== src/Service/Loop.antt =====
-- The loop of the service (XeryonEtherCAT.Core/Services/EthercatDriveService.cs): its state, one
-- cycle of `RunIoLoopAsync`, and its start and its end (`InitializeAsync`, `DisposeAsync`).
pub mod Axes
pub mod Restart
pub mod Results
pub mod Keeps
pub mod Lives
pub mod Staged
use Prim.Native.String.{String}
use xeryon_ether_cat.Base.{
  ℕ, zero, suc, ◌||◌, ℤ, pos, negsuc, Option, none, some, List, [], ◌∷◌, ◌++◌, ◌+◌, Bool, true,
  false, ◌==◌, ◌==ℤ◌, ltb, leb, ltb_ℤ, leb_ℤ, if◌then◌else◌, replicate, length,
}
use xeryon_ether_cat.Shim.{Pointer, null, valid, wkc_low}
use xeryon_ether_cat.Shim.Pdo.{DriveTxPdo}
use xeryon_ether_cat.Shim.Info.{Health}
use xeryon_ether_cat.Service.Act.{Act, done, ◌>>=◌, ◌>>◌}
use xeryon_ether_cat.Service.Client.{SoemClient}
use xeryon_ether_cat.Service.Errors.{
  DriveError, unknown_fault, safety_timeout, is_fatal_error, is_recoverable_error,
}
use xeryon_ether_cat.Service.Command.{PendingCommand, start}
use xeryon_ether_cat.Service.Axis.{
  Axis, Event, command_failed, command_cancelled, Moment, new_axis, stage_axis, process_axis,
}
use xeryon_ether_cat.Service.State.{
  Cycle, new_service, Snapshot, Service, Request, tell, serve_all, process_incoming_commands,
  zero_health, fail_active, clear_active, drive_states_of,
}

-- `EthercatDriveOptions`, as far as the loop reads them.
pub record Options : Type 0 where
  pub exchange_timeout_microseconds : ℤ
  pub wkc_recovery_threshold : ℤ
  pub recovery_timeout_milliseconds : ℤ

module _ {W : Type 0} (client : SoemClient W) where
  -- `StageOutputs`, from an axis on.
  pub stage_outputs : Pointer → ℕ → List Axis → Act W (List Axis)
  stage_outputs h i [] w = done [] w
  stage_outputs h i (a ∷ axes) w =
      (do
        rc ← client.write_rx_pdo h (pos (suc i)) (stage_axis a).rx
        rest ← stage_outputs h (suc i) axes
        done (stage_axis a ∷ rest))
        w

  -- `ReadHealth`
  abbrev pub read_health : Pointer → Act W Health
  read_health h = do
    r ← client.get_health h zero_health
    done (if r.0 ==ℤ pos 0 then zero_health else r.1)

  -- `AllocateBuffers`: an array of a negative length cannot be made.
  abbrev pub allocate_buffers : ℤ → Act W (List Axis)
  allocate_buffers (pos n) w = done (replicate n new_axis) w
  allocate_buffers (negsuc n) w = none

  -- `_soem.Shutdown(_handle)`, if there is a handle.
  abbrev pub shut_down : Pointer → Act W (Unit {0})
  shut_down null = done tt
  shut_down valid = client.shutdown valid

  -- The end of `Reinitialize`, with the number of slaves that it got.
  abbrev pub take_count : Service → ℤ → Act W Service
  take_count s count = if count ==ℤ s.slave_count then done (record s { handle = valid }) else (do
    axes ← allocate_buffers count
    done (record s { handle = valid; slave_count = count; axes = axes }))

  -- `Reinitialize`, with the handle that it got.
  abbrev pub take_handle : Service → Pointer → Act W Service
  take_handle s null = done (record s { handle = null })
  take_handle s valid = do count ← client.get_slave_count valid; take_count s count

  -- `Reinitialize`
  pub reinitialize : Service → Act W Service
  reinitialize s = do
    shut_down s.handle
    h ← client.initialize s.interface
    take_handle (tell (fail_active s.axes) (record s { axes = clear_active s.axes })) h

  -- The loop of `ProcessStatuses`, from an axis on; it ends where something throws.
  pub process_axes : Moment → Pointer → Health → ℕ → List Axis → Act W (List Axis × List Event)
  process_axes m h health i [] w = done ([], []) w
  process_axes m h health i (a ∷ axes) w =
      (do
        r ← client.read_tx_pdo h (pos (suc i)) (m.stale (suc i))
        let p = if ltb_ℤ r.0 (pos 0) then (a, [], false) else process_axis m (suc i) r.1 health a
        rest ← if p.2 then done (axes, []) else process_axes m h health (suc i) axes
        done (p.0 ∷ rest.0, p.1 ++ rest.1))
        w

  -- `InitializeAsync` with the number of slaves that it got.
  abbrev pub start_axes : String → ℤ → Act W (Option Service)
  start_axes iface count =
      if leb_ℤ count (pos 0)
      then (do client.shutdown valid; done none)
      else (do axes ← allocate_buffers count; done (some (new_service iface count axes)))

  -- `InitializeAsync` with the handle that it got; `none` is one of its exceptions.
  abbrev pub start_service : String → Pointer → Act W (Option Service)
  start_service iface null = done none
  start_service iface valid = do count ← client.get_slave_count valid; start_axes iface count

  -- `InitializeAsync`
  abbrev pub initialize : String → Act W (Option Service)
  initialize iface = do h ← client.initialize iface; start_service iface h

  -- `DisposeAsync`, once the loop has ended.
  abbrev pub dispose : Service → Act W (Unit {0})
  dispose s = shut_down s.handle

  module _ (options : Options) where
    -- `HandleFaultyCycle`, with what the recovery returned.
    abbrev pub take_recovery : Service → ℤ → Act W Service
    take_recovery s rc =
        if ltb_ℤ (pos 0) rc
        then done (record s { wkc_strikes = 0 })
        else (do again ← reinitialize s; done (record again { wkc_strikes = 0 }))

    -- `HandleFaultyCycle`, from the test of the strikes on.
    abbrev pub recover : Service → Act W Service
    recover s = do
      rc ← client.try_recover s.handle options.recovery_timeout_milliseconds
      take_recovery s rc

    -- `HandleFaultyCycle`
    pub handle_faulty_cycle : Service → Act W Service
    handle_faulty_cycle s =
        let struck = record s { wkc_strikes = suc s.wkc_strikes } in
        if leb_ℤ options.wkc_recovery_threshold (pos (suc s.wkc_strikes))
        then recover struck
        else done struck

    -- `ProcessStatuses`
    abbrev pub process_statuses : Moment → Health → Service → Act W Service
    process_statuses m health s = do
      checked ←
          if ltb_ℤ health.last_wkc health.group_expected_wkc
          then handle_faulty_cycle s
          else done (record s { wkc_strikes = 0 })
      r ← process_axes m checked.handle health 0 checked.axes
      done (tell r.1 (record checked { axes = r.0 }))

    -- A cycle's result is a fatal error.
    abbrev pub handle_fatal : Service → Act W Service
    handle_fatal s =
        let counted = record s { fatal_error_count = suc s.fatal_error_count } in
        if leb 3 (suc s.fatal_error_count)
        then (do
          again ← reinitialize counted
          done (record again { fatal_error_count = 0; wkc_strikes = 0 }))
        else handle_faulty_cycle counted

    -- What a cycle does with its result.
    abbrev pub handle_result : Moment → Health → ℤ → Service → Act W Service
    handle_result m health wkc s =
        if leb_ℤ (pos 0) wkc || is_recoverable_error wkc
        then process_statuses m health (record s { fatal_error_count = 0 })
        else if is_fatal_error wkc
        then handle_fatal s
        else handle_faulty_cycle s

    -- The body of the loop of `RunIoLoopAsync`.
    pub run_io_cycle : Cycle → Service → Act W Service
    run_io_cycle c s = do
      let taken = process_incoming_commands c.moment.now (serve_all c.first s)
      let asked = serve_all c.second taken
      axes ← stage_outputs asked.handle 0 asked.axes
      let staged = record asked { axes = axes }
      wkc ← client.exchange_process_data staged.handle options.exchange_timeout_microseconds
      health ← read_health staged.handle
      handled ← handle_result c.moment health wkc (serve_all c.third staged)
      errors ← client.drain_error_list handled.handle
      done (record handled {
        snapshot = record { health = health; drive_states = drive_states_of handled.axes };
      })

    -- `RunIoLoopAsync`, until it is cancelled after some cycles.
    pub run_io_loop : List Cycle → Service → Act W Service
    run_io_loop [] s w = done s w
    run_io_loop (c ∷ cycles) s w = (do next ← run_io_cycle c s; run_io_loop cycles next) w

    abbrev pub run_started : List Cycle → Option Service → Act W (Option Service)
    run_started cycles none = done none
    run_started cycles (some s) = do ended ← run_io_loop cycles s; dispose ended; done (some ended)

    -- The life of a service: it is initialised, its loop runs, and it is disposed of.
    pub run_service : String → List Cycle → Act W (Option Service)
    run_service iface cycles = do started ← initialize iface; run_started cycles started
