-- ===== src/Service/State.antt =====
-- The state of the service (XeryonEtherCAT.Core/Services/EthercatDriveService.cs), what others do to
-- it while its loop runs, and the parts of its loop that do not call the shim.
pub mod Keeps
pub mod Latches
use Prim.Native.String.{String}
use xeryon_ether_cat.Base.{
  ℕ, zero, suc, ◌||◌, ℤ, pos, negsuc, Option, none, some, List, [], ◌∷◌, ◌++◌, ◌+◌, Bool, true,
  false, ◌==◌, ◌==ℤ◌, ltb, leb, ltb_ℤ, leb_ℤ, if◌then◌else◌, replicate, length,
}
use xeryon_ether_cat.Shim.{Pointer, null, valid, wkc_low}
use xeryon_ether_cat.Shim.Pdo.{DriveTxPdo}
use xeryon_ether_cat.Shim.Info.{Health}
use xeryon_ether_cat.Service.Act.{Act, done, ◌>>=◌, ◌>>◌}
use xeryon_ether_cat.Service.Client.{SoemClient}
use xeryon_ether_cat.Service.Errors.{
  DriveError, unknown_fault, safety_timeout, is_fatal_error, is_recoverable_error,
}
use xeryon_ether_cat.Service.Command.{PendingCommand, start}
use xeryon_ether_cat.Service.Axis.{
  Axis, Event, command_failed, command_cancelled, Moment, new_axis, stage_axis, process_axis,
}

-- `SoemStatusSnapshot`, but for its times.
pub record Snapshot : Type 0 where
  pub health : Health
  pub drive_states : List DriveTxPdo

-- The fields of `EthercatDriveService` while its loop runs, but for its locks, its tasks, the flag
-- `_initialized` and the counter of its telemetry: `axes` has the elements of its arrays, `queue` what
-- its channel holds, and `events` what it has told so far.
pub record Service : Type 0 where
  pub handle : Pointer
  pub interface : String
  pub slave_count : ℤ
  pub axes : List Axis
  pub queue : List PendingCommand
  pub wkc_strikes : ℕ
  pub fatal_error_count : ℕ
  pub events : List Event
  pub snapshot : Snapshot

-- What others do to the service while its loop runs: `ExecuteCommandAsync` writes a command to the
-- channel, a token cancels it, and a method whose command has completed latches or frees its axis.
pub data Request : Type 0 where
  submit : PendingCommand → Request
  cancel : ℕ → ℕ → Request
  latch : ℕ → Bool → Request

abbrev pub tell : List Event → Service → Service
tell events s = record s { events = s.events ++ events }

-- `axis < 0 || axis >= _activeCommands.Length`, and the element where it is not.
abbrev pub axis_at : List Axis → ℤ → Option Axis
axis_at [] i = none
axis_at (a ∷ axes) (pos zero) = some a
axis_at (a ∷ axes) (pos (suc i)) = axis_at axes (pos i)
axis_at (a ∷ axes) (negsuc i) = none

abbrev pub set_active : ℕ → Option PendingCommand → List Axis → List Axis
set_active i c [] = []
set_active zero c (a ∷ axes) = record a { active = c } ∷ axes
set_active (suc i) c (a ∷ axes) = a ∷ set_active i c axes

-- `_stopLatch[axis] = ...`
abbrev pub set_latch : ℕ → Bool → List Axis → List Axis
set_latch i on [] = []
set_latch zero on (a ∷ axes) = record a { stop_latch = on } ∷ axes
set_latch (suc i) on (a ∷ axes) = a ∷ set_latch i on axes

-- `Cancelled = true`, of the command of a task.
abbrev pub mark_cancelled : ℕ → List PendingCommand → List PendingCommand
mark_cancelled ticket [] = []
mark_cancelled ticket (c ∷ queue) =
    (if c.ticket == ticket then record c { cancelled = true } else c) ∷ mark_cancelled ticket queue

-- A request is served: `WriteAsync` of `ExecuteCommandAsync`, the callback of `AttachCancellation`
-- that it registers, with the number of the axis, or the write of a latch behind a command that has
-- completed. Where a restart has left fewer axes than that number, the write to the array throws, in
-- the caller and not in the loop; here it leaves the axes as they are.
abbrev pub serve : Request → Service → Service
serve (submit c) s = record s { queue = s.queue ++ c ∷ [] }
serve (cancel ticket axis) s =
    tell (command_cancelled ticket ∷ [])
      (record s { queue = mark_cancelled ticket s.queue; axes = set_active axis none s.axes })
serve (latch axis on) s = record s { axes = set_latch axis on s.axes }

pub serve_all : List Request → Service → Service
serve_all [] s = s
serve_all (r ∷ requests) s = serve_all requests (serve r s)

abbrev pub invalid_index : DriveError
invalid_index = record {
  code = unknown_fault;
  message = "Invalid slave index.";
  recovery_action = "Verify command arguments.";
}

abbrev pub in_flight : DriveError
in_flight = record {
  code = unknown_fault;
  message = "Command already in-flight for slave.";
  recovery_action = "Wait for active command to complete.";
}

abbrev pub restarted : DriveError
restarted = record {
  code = safety_timeout;
  message = "IO loop restarted.";
  recovery_action = "Re-issue motion command after recovery.";
}

-- The index of an element, from an index that is not negative.
abbrev pub slot : ℤ → ℕ
slot (pos i) = i
slot (negsuc i) = 0

-- What `ProcessIncomingCommands` does with a command for the axis of an array's element, by the
-- command that is active there.
abbrev pub activate :
    ℕ → PendingCommand → List Axis → Option PendingCommand → List Axis × List Event
activate now c axes (some busy) = (axes, command_failed c.ticket in_flight ∷ [])
activate now c axes none = (set_active (slot c.slave_index) (some (start now c)) axes, [])

abbrev pub admit_at : ℕ → PendingCommand → List Axis → Option Axis → List Axis × List Event
admit_at now c axes none = (axes, command_failed c.ticket invalid_index ∷ [])
admit_at now c axes (some a) = activate now c axes a.active

-- What `ProcessIncomingCommands` does with a command that is not cancelled.
unfoldable pub admit : ℕ → PendingCommand → List Axis → List Axis × List Event
admit now c axes = admit_at now c axes (axis_at axes c.slave_index)

-- `ProcessIncomingCommands`, for what the channel holds.
pub admit_all : ℕ → List PendingCommand → List Axis → List Axis × List Event
admit_all now [] axes = (axes, [])
admit_all now (c ∷ queue) axes =
    let first = if c.cancelled then (axes, []) else admit now c axes in
    let rest = admit_all now queue first.0 in (rest.0, first.1 ++ rest.1)

abbrev pub process_incoming_commands : ℕ → Service → Service
process_incoming_commands now s =
    let r = admit_all now s.queue s.axes in tell r.1 (record s { axes = r.0; queue = [] })

abbrev pub zero_health : Health
zero_health = record {
  slaves_found = pos 0;
  group_expected_wkc = pos 0;
  last_wkc = pos 0;
  bytes_out = pos 0;
  bytes_in = pos 0;
  slaves_op = 0;
  al_status_code = 0;
}

-- The events with which `Reinitialize` fails the active commands.
pub fail_active : List Axis → List Event
fail_active [] = []
fail_active (a ∷ axes) = elim a.active [
  | none ↦ fail_active axes
  | some c ↦ command_failed c.ticket restarted ∷ fail_active axes
]

-- `Array.Clear(_activeCommands, ...)`
pub clear_active : List Axis → List Axis
clear_active [] = []
clear_active (a ∷ axes) = record a { active = none } ∷ clear_active axes

pub drive_states_of : List Axis → List DriveTxPdo
drive_states_of [] = []
drive_states_of (a ∷ axes) = a.tx ∷ drive_states_of axes

-- The fields of the service before `InitializeAsync` starts the loop. `_fatalErrorCount` is used in
-- the loop but declared nowhere in the sources; it is taken for a field of type `int` that starts at
-- 0.
abbrev pub new_service : String → ℤ → List Axis → Service
new_service iface count axes = record {
  handle = valid;
  interface = iface;
  slave_count = count;
  axes = axes;
  queue = [];
  wkc_strikes = 0;
  fatal_error_count = 0;
  events = [];
  snapshot = record { health = zero_health; drive_states = [] };
}

-- One cycle: what it meets, and what others ask for before it takes in commands, before it
-- stages them, and before it looks at the result of the exchange.
pub record Cycle : Type 0 where
  pub moment : Moment
  pub first : List Request
  pub second : List Request
  pub third : List Request
