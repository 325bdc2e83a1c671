-- ===== src/Service/Axis.antt =====
-- One axis of the service (XeryonEtherCAT.Core/Services/EthercatDriveService.cs): what the service
-- keeps for a slave, what it stages for it, and what it makes of the state that the slave reports.
-- Elements of the arrays that belong to one slave stand together. A message with parts put in is
-- its format.
pub mod Resolves
pub mod Keeps
pub mod Asked
pub mod Reached
pub mod Completes
use Prim.Native.String.{String}
use Prim.Native.Nat.{bit_xor}
use xeryon_ether_cat.Base.{
  ℕ, ℤ, pos, Option, none, some, List, [], ◌∷◌, ◌++◌, ◌*◌, ◌-◌, Bool, true, false, not, ◌&&◌, ◌||◌,
  ◌==◌, ◌==ℤ◌, ltb, if◌then◌else◌,
}
use xeryon_ether_cat.Shim.Pdo.{DriveRxPdo, DriveTxPdo}
use xeryon_ether_cat.Shim.Init.{zero_txpdo}
use xeryon_ether_cat.Shim.Info.{Health}
use xeryon_ether_cat.Service.Formatter.{to_bit_mask}
use xeryon_ether_cat.Service.Errors.{
  DriveErrorCode, no_error, follow_error, position_fail, safety_timeout, emergency_stop,
  encoder_error, thermal_protection, end_stop_hit, force_zero, error_compensation_fault,
  unknown_fault, DriveError, is_set, try_decode_error,
}
use xeryon_ether_cat.Service.Command.{
  CommandState, PendingCommand, pending, completed, timed_out, mark_acked, fill_command, apply,
  evaluate,
}

-- `last_fault_time` is `none` for `DateTimeOffset.MinValue`.
pub record Axis : Type 0 where
  pub rx : DriveRxPdo
  pub tx : DriveTxPdo
  pub previous_tx : DriveTxPdo
  pub active : Option PendingCommand
  pub stop_latch : Bool
  pub last_fault : DriveErrorCode
  pub last_fault_time : Option ℕ

-- What the service tells others: how the task of a command ended, and the events that it raises,
-- `StatusChanged` with the mask of what changed, and `Faulted`.
pub data Event : Type 0 where
  command_completed : ℕ → Event
  command_failed : ℕ → DriveError → Event
  command_cancelled : ℕ → Event
  status_changed : ℕ → DriveTxPdo → DriveTxPdo → ℕ → List ℕ → Event
  faulted : ℕ → DriveTxPdo → DriveError → Health → Event

-- What a cycle meets: the time, what the storage of the `out` parameter holds before the read of
-- each slave, which a failed read leaves as it is, and whether one of those who listen to an event
-- throws.
pub record Moment : Type 0 where
  pub now : ℕ
  pub stale : ℕ → DriveTxPdo
  pub throws : Event → Bool

-- `CreateNopPdo`
abbrev pub nop_pdo : DriveRxPdo
nop_pdo = record {
  command = fill_command (b'N' ∷ b'O' ∷ b'P' ∷ []);
  parameter = pos 0;
  velocity = 0;
  acceleration = 0;
  deceleration = 0;
  execute = 0;
}

-- An element of the arrays as `AllocateBuffers` leaves them.
abbrev pub new_axis : Axis
new_axis = record {
  rx = nop_pdo;
  tx = zero_txpdo;
  previous_tx = zero_txpdo;
  active = none;
  stop_latch = false;
  last_fault = no_error;
  last_fault_time = none;
}

-- `StageOutputs` up to the write, by the command of the axis.
abbrev pub stage_active : Axis → Option PendingCommand → Axis
stage_active a none = record a { rx = nop_pdo }
stage_active a (some c) =
    if c.cancelled then record a { rx = nop_pdo; active = none } else record a { rx = apply c }

abbrev pub stage_axis : Axis → Axis
stage_axis a = stage_active a a.active

-- The number of a code.
abbrev pub code_number : DriveErrorCode → ℕ
code_number no_error = 0
code_number follow_error = 1
code_number position_fail = 2
code_number safety_timeout = 3
code_number emergency_stop = 4
code_number encoder_error = 5
code_number thermal_protection = 6
code_number end_stop_hit = 7
code_number force_zero = 8
code_number error_compensation_fault = 9
code_number unknown_fault = 10

-- `_faultRepeatInterval`, in ticks of 100 ns.
abbrev pub fault_repeat_interval : ℕ
fault_repeat_interval = 50000000

-- `(now - _lastFaultTimes[idx]) < _faultRepeatInterval`
abbrev pub is_recent : ℕ → Option ℕ → Bool
is_recent now none = false
is_recent now (some time) = ltb (now - time) fault_repeat_interval

-- `RaiseFault`, for the slave of the axis.
unfoldable pub raise_fault : ℕ → ℕ → DriveTxPdo → DriveError → Health → Axis → Axis × List Event
raise_fault now slave status error health a =
    if (code_number a.last_fault == code_number error.code) && is_recent now a.last_fault_time
    then (a, [])
    else (
      record a { last_fault = error.code; last_fault_time = some now },
      faulted slave status error health ∷ [],
    )

-- The part of `ProcessStatuses` that decodes a fault.
abbrev pub note_fault : ℕ → ℕ → DriveTxPdo → Health → Option DriveError → Axis → Axis × List Event
note_fault now slave tx health (some error) a = raise_fault now slave tx error health a
note_fault now slave tx health none a =
    (record a { last_fault = no_error; last_fault_time = none }, [])

unfoldable pub decode_fault : ℕ → ℕ → DriveTxPdo → Health → Axis → Axis × List Event
decode_fault now slave tx health a = note_fault now slave tx health (try_decode_error tx) a

abbrev pub al_error : DriveError
al_error = record {
  code = unknown_fault;
  message = "AL status code {health.AlStatusCode}";
  recovery_action = "Inspect EtherCAT network and recover.";
}

abbrev pub timeout_error : DriveError
timeout_error = record {
  code = safety_timeout;
  message = "Command {command.Keyword} timed out after {command.Timeout.TotalSeconds:F2} seconds.";
  recovery_action = "Issue ENBL=1 or RSET, then retry with adjusted profile.";
}

-- `command.Fail(error)` and `RaiseFault` for it, and the end of the command.
abbrev pub give_up :
    ℕ → ℕ → DriveTxPdo → Health → PendingCommand → DriveError → Axis → Axis × List Event
give_up now slave tx health c error a =
    let raised = raise_fault now slave tx error health a in
    (record raised.0 { active = none }, command_failed c.ticket error ∷ raised.1)

-- The `switch` of `ProcessStatuses`, with what `Evaluate` returned and left.
abbrev pub settle :
    ℕ → ℕ → DriveTxPdo → Health → CommandState → PendingCommand → Axis → Axis × List Event
settle now slave tx health pending c a = (record a { active = some c }, [])
settle now slave tx health completed c a =
    (record a { active = none }, command_completed c.ticket ∷ [])
settle now slave tx health timed_out c a = give_up now slave tx health c timeout_error a

-- The part of `ProcessStatuses` behind the decoding of a fault.
unfoldable pub conclude : ℕ → ℕ → DriveTxPdo → Health → PendingCommand → Axis → Axis × List Event
conclude now slave tx health c a =
    if health.al_status_code == 0
    then (let r = evaluate now tx c in settle now slave tx health r.0 r.1 a)
    else give_up now slave tx health c al_error a

-- `if (!command.Acked && tx.ExecuteAck != 0) command.MarkAcked();`
abbrev pub take_ack : DriveTxPdo → PendingCommand → PendingCommand
take_ack tx c = if not c.acked && is_set tx.execute_ack then mark_acked c else c

-- The part of `ProcessStatuses` for an active command, behind its change of status.
unfoldable pub follow_command :
    ℕ → ℕ → DriveTxPdo → Health → PendingCommand → Axis → Axis × List Event
follow_command now slave tx health c a =
    if c.cancelled
    then (record a { active = none }, [])
    else (let decoded = decode_fault now slave tx health a in
        let concluded = conclude now slave tx health (take_ack tx c) decoded.0 in
        (concluded.0, decoded.1 ++ concluded.1))

-- `changedMask != 0 || positionChanged`
abbrev pub has_changed : DriveTxPdo → DriveTxPdo → Bool
has_changed tx previous =
    not (bit_xor (to_bit_mask tx) (to_bit_mask previous) == 0)
    || not (tx.actual_position ==ℤ previous.actual_position)

-- The body of the loop of `ProcessStatuses` behind the update of the stored state; the last part of
-- the result tells whether it throws.
abbrev pub process_active :
    Moment
    → ℕ
    → DriveTxPdo
    → DriveTxPdo
    → Health
    → Axis
    → Option PendingCommand
    → Axis × List Event × Bool
process_active m slave tx previous health a none = (a, [], false)
process_active m slave tx previous health a (some c) =
    let change =
      status_changed slave tx previous (bit_xor (to_bit_mask tx) (to_bit_mask previous))
        c.keyword in
    let followed = follow_command m.now slave tx health c a in
    if has_changed tx previous
    then (if m.throws change
        then (a, change ∷ [], true)
        else (followed.0, change ∷ followed.1, false))
    else (followed.0, followed.1, false)

-- The body of the loop of `ProcessStatuses` behind the read.
unfoldable pub process_axis : Moment → ℕ → DriveTxPdo → Health → Axis → Axis × List Event × Bool
process_axis m slave tx health a =
    process_active m slave tx a.previous_tx health (record a { previous_tx = tx; tx = tx }) a.active
