-- ===== src/Service/Command.antt =====
-- A command on its way (`PendingCommand` of XeryonEtherCAT.Core/Models/PendingCommand.cs): what it
-- asks of a drive, and when it is over. Time is in ticks; the text of a keyword is its ASCII bytes.
pub mod Settles
use xeryon_ether_cat.Base.{
  ℕ, ℤ, pos, List, [], ◌∷◌, ◌++◌, ◌-◌, Bool, true, false, not, ◌&&◌, ◌||◌, ◌==◌, ◌==ℤ◌, ltb_ℤ,
  leb_ℤ, if◌then◌else◌, word32, take, length, replicate,
}
use xeryon_ether_cat.Shim.Pdo.{DriveRxPdo, DriveTxPdo}
use xeryon_ether_cat.Service.Errors.{is_set}

-- `CommandCompletion`
pub data CommandCompletion : Type 0 where
  ack_only position_reached indexed enabled disabled halt ack_with_timeout : CommandCompletion

-- `CommandState`
pub data CommandState : Type 0 where
  pending completed timed_out : CommandState

-- `PendingCommand`: `ticket` is the identity of its task, `started` the time at which its stopwatch
-- was started.
pub record PendingCommand : Type 0 where
  pub ticket : ℕ
  pub slave_index : ℤ
  pub keyword : List ℕ
  pub parameter : ℤ
  pub velocity : ℤ
  pub acceleration : ℕ
  pub deceleration : ℕ
  pub requires_ack : Bool
  pub completion : CommandCompletion
  pub timeout : ℤ
  pub acked : Bool
  pub cancelled : Bool
  pub started : ℕ
  pub previous_position_reached : Bool
  pub previous_motor_on : Bool
  pub edge_detection_initialized : Bool

-- `Start`
abbrev pub start : ℕ → PendingCommand → PendingCommand
start now c = record c { started = now; acked = false; edge_detection_initialized = false }

-- `MarkAcked`
abbrev pub mark_acked : PendingCommand → PendingCommand
mark_acked c = record c { acked = true }

-- The array that `FillCommand` leaves: the keyword's first 32 bytes, and zeros behind them.
abbrev pub fill_command : List ℕ → List ℕ
fill_command keyword = let ascii = take 32 keyword in ascii ++ replicate (32 - length ascii) 0

-- `Apply`: the shim reads the 32 bits of the velocity without a sign.
abbrev pub apply : PendingCommand → DriveRxPdo
apply c = record {
  command = fill_command c.keyword;
  parameter = c.parameter;
  velocity = word32 c.velocity;
  acceleration = c.acceleration;
  deceleration = c.deceleration;
  execute = if c.acked && c.requires_ack then 0 else 1;
}

-- `_timeout > TimeSpan.Zero && _stopwatch.Elapsed > _timeout`
abbrev pub is_late : ℕ → PendingCommand → Bool
is_late now c = ltb_ℤ (pos 0) c.timeout && ltb_ℤ c.timeout (pos (now - c.started))

abbrev pub complete_if : Bool → CommandState
complete_if true = completed
complete_if false = pending

-- `Keyword == "DPOS"`
abbrev pub is_dpos : List ℕ → Bool
is_dpos (a ∷ b ∷ c ∷ d ∷ []) = (a == b'D') && ((b == b'P') && ((c == b'O') && (d == b'S')))
is_dpos _ = false

-- The edges that end a move, or its target, given that an earlier state was seen.
abbrev pub move_is_over : PendingCommand → DriveTxPdo → Bool
move_is_over c status =
    (not c.previous_position_reached && is_set status.position_reached)
    || ((c.previous_motor_on && not (is_set status.motor_on))
        || (is_dpos c.keyword && (status.actual_position ==ℤ c.parameter)))

-- `EvaluatePositionReached`
unfoldable pub evaluate_position_reached :
    DriveTxPdo → PendingCommand → CommandState × PendingCommand
evaluate_position_reached status c =
    let seen : PendingCommand = record c {
      previous_position_reached = is_set status.position_reached;
      previous_motor_on = is_set status.motor_on;
      edge_detection_initialized = true;
    } in
    if c.edge_detection_initialized
    then (complete_if (move_is_over c status), seen)
    else (pending, seen)

-- `Evaluate` for the ways of completion that need no more than the last state.
abbrev pub evaluate_now : CommandCompletion → DriveTxPdo → PendingCommand → CommandState
evaluate_now ack_only status c = complete_if c.acked
evaluate_now indexed status c =
    complete_if (is_set status.encoder_valid && is_set status.position_reached)
evaluate_now enabled status c =
    complete_if (is_set status.amplifiers_enabled && is_set status.motor_on)
evaluate_now disabled status c = complete_if (not (is_set status.amplifiers_enabled))
evaluate_now halt status c = complete_if (not (is_set status.scanning))
evaluate_now _ status c = pending

-- `Evaluate` for a command that also waits for its whole timeout.
abbrev pub evaluate_wait : ℕ → PendingCommand → CommandState
evaluate_wait now c =
    if c.acked
    then complete_if (ltb_ℤ (pos 0) c.timeout && leb_ℤ c.timeout (pos (now - c.started)))
    else (if is_late now c then timed_out else pending)

-- `Evaluate` for each way of completion.
abbrev pub evaluate_as :
    CommandCompletion → ℕ → DriveTxPdo → PendingCommand → CommandState × PendingCommand
evaluate_as ack_with_timeout now status c = (evaluate_wait now c, c)
evaluate_as position_reached now status c =
    if is_late now c then (timed_out, c) else evaluate_position_reached status c
evaluate_as other now status c =
    (if is_late now c then timed_out else evaluate_now other status c, c)

-- `Evaluate`, with what it changes in the command.
unfoldable pub evaluate : ℕ → DriveTxPdo → PendingCommand → CommandState × PendingCommand
evaluate now status c = evaluate_as c.completion now status c
