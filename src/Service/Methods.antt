-- ===== src/Service/Methods.antt =====
-- The methods by which callers command a drive (XeryonEtherCAT.Core/Services/EthercatDriveService.cs):
-- what each makes of its arguments and of the state of the service, up to `ExecuteCommandAsync`, and
-- what it does once its command has completed.
pub mod Reasons
pub mod Ready
pub mod Explains
pub mod Latched
use xeryon_ether_cat.Base.{
  ℕ, zero, suc, ℤ, pos, negsuc, Option, none, some, List, [], ◌∷◌, ◌++◌, ◌*◌, ◌-◌, Bool, true,
  false, not, ◌&&◌, ◌||◌, ◌==◌, ltb, leb, ltb_ℤ, if◌then◌else◌, length, get_or,
}
use xeryon_ether_cat.Shim.Pdo.{DriveTxPdo}
use xeryon_ether_cat.Shim.Init.{zero_txpdo}
use xeryon_ether_cat.Service.Errors.{is_set}
use xeryon_ether_cat.Service.Command.{
  PendingCommand, CommandCompletion, ack_only, position_reached, indexed, enabled, disabled, halt,
  ack_with_timeout,
}
use xeryon_ether_cat.Service.Axis.{Axis}
use xeryon_ether_cat.Service.State.{Service}

-- The methods with their arguments behind the number of the slave. Timeouts are in ticks; `none` is
-- a timeout that is not given.
pub data Method : Type 0 where
  move_absolute : ℤ → ℤ → ℕ → ℕ → ℤ → Method
  jog : ℤ → ℤ → ℕ → ℕ → Method
  index : ℤ → ℤ → ℕ → ℕ → ℤ → Method
  reset : Method
  enable : Bool → Method
  halt_drive : Method
  stop : Method
  send_raw_command : List ℕ → ℤ → ℤ → ℕ → ℕ → Bool → Option ℤ → Method

-- The exceptions with which a method refuses.
pub data Refusal : Type 0 where
  not_initialized bad_argument no_such_axis latched not_enabled not_referenced : Refusal

-- What a method does: it throws, returns at once, or gives a command to `ExecuteCommandAsync`.
pub data Answer : Type 0 where
  refused : Refusal → Answer
  at_once : Answer
  execute : PendingCommand → Answer

-- `TimeSpan.FromMilliseconds`
abbrev pub milliseconds : ℕ → ℤ
milliseconds n = pos (n * 10000)

-- `char.IsWhiteSpace`, of an ASCII character.
abbrev pub is_white : ℕ → Bool
is_white c = (c == 32) || (leb 9 c && leb c 13)

-- `string.IsNullOrWhiteSpace`
abbrev pub is_blank : List ℕ → Bool
is_blank [] = true
is_blank (c ∷ cs) = is_white c && is_blank cs

-- `TrimEnd`, and then `TrimStart`.
abbrev pub trim_end : List ℕ → List ℕ
trim_end [] = []
trim_end (c ∷ cs) = if is_blank (c ∷ cs) then [] else c ∷ trim_end cs

abbrev pub trim_start : List ℕ → List ℕ
trim_start [] = []
trim_start (c ∷ cs) = if is_white c then trim_start cs else c ∷ cs

-- `ToUpperInvariant`
abbrev pub to_upper : List ℕ → List ℕ
to_upper [] = []
to_upper (c ∷ cs) = (if leb 97 c && leb c 122 then c - 32 else c) ∷ to_upper cs

-- `keyword.Trim().ToUpperInvariant()`
abbrev pub normalize : List ℕ → List ℕ
normalize keyword = to_upper (trim_start (trim_end keyword))

-- `CreateMotion`
abbrev pub create_motion :
    ℕ → ℕ → List ℕ → ℤ → ℤ → ℕ → ℕ → ℤ → CommandCompletion → Bool → PendingCommand
create_motion ticket axis keyword parameter velocity acc dec timeout completion requires_ack =
    record {
      ticket = ticket;
      slave_index = pos axis;
      keyword = keyword;
      parameter = parameter;
      velocity = velocity;
      acceleration = acc;
      deceleration = dec;
      requires_ack = requires_ack;
      completion = completion;
      timeout = timeout;
      acked = false;
      cancelled = false;
      started = 0;
      previous_position_reached = false;
      previous_motor_on = false;
      edge_detection_initialized = false;
    }

-- `CreateControl`
abbrev pub create_control : ℕ → ℕ → List ℕ → ℤ → ℤ → CommandCompletion → PendingCommand
create_control ticket axis keyword parameter timeout completion =
    create_motion ticket axis keyword parameter (pos 0) 0 0 timeout completion true

-- `settleTimeout > TimeSpan.Zero ? settleTimeout : _options.DefaultSettleTimeout`
abbrev pub settle_timeout : ℤ → ℤ → ℤ
settle_timeout given default_timeout = if ltb_ℤ (pos 0) given then given else default_timeout

-- `GetAxisIndex`: `none` is its exception.
abbrev pub get_axis_index : ℤ → Option ℕ
get_axis_index (pos zero) = none
get_axis_index (pos (suc axis)) = some axis
get_axis_index (negsuc n) = none

-- `snapshot.DriveStates.Length > axis ? snapshot.DriveStates[axis] : default`
abbrev pub status_of : Service → ℕ → DriveTxPdo
status_of s axis = get_or s.snapshot.drive_states axis zero_txpdo

-- `_stopLatch.Length > axis && _stopLatch[axis]`
abbrev pub latch_at : List Axis → ℕ → Bool
latch_at [] axis = false
latch_at (a ∷ axes) zero = a.stop_latch
latch_at (a ∷ axes) (suc axis) = latch_at axes axis

-- `EnsureAxisReadyForMotion`, with what is done behind it.
abbrev pub ensure_axis_ready : Service → ℕ → Bool → Answer → Answer
ensure_axis_ready s axis require_encoder next =
    if latch_at s.axes axis
    then refused latched
    else if not (is_set (status_of s axis).amplifiers_enabled)
    then refused not_enabled
    else if require_encoder && not (is_set (status_of s axis).encoder_valid)
    then refused not_referenced
    else next

-- `ExecuteCommandAsync`, which takes the lock of the axis.
abbrev pub enter : Service → ℕ → PendingCommand → Answer
enter s axis c = if ltb axis (length s.axes) then execute c else refused no_such_axis

-- The arguments that a method refuses before it looks at the slave.
abbrev pub is_bad : Method → Bool
is_bad (jog direction velocity acc dec) = ltb_ℤ direction (negsuc 0) || ltb_ℤ (pos 1) direction
is_bad (index direction velocity acc dec timeout) =
    ltb_ℤ direction (pos 0) || ltb_ℤ (pos 1) direction
is_bad (send_raw_command keyword parameter velocity acc dec requires_ack timeout) =
    is_blank keyword || ltb 32 (length (normalize keyword))
is_bad _ = false

-- `timeout ?? TimeSpan.Zero`
abbrev pub or_zero : Option ℤ → ℤ
or_zero none = pos 0
or_zero (some timeout) = timeout

-- The methods behind `GetAxisIndex`.
unfoldable pub command_axis : ℤ → ℕ → Service → ℕ → Method → Answer
command_axis default_timeout ticket s axis (move_absolute target velocity acc dec timeout) =
    ensure_axis_ready s axis true (
      enter s axis (
        create_motion ticket axis (b'D' ∷ b'P' ∷ b'O' ∷ b'S' ∷ []) target velocity acc dec
          (settle_timeout timeout default_timeout) position_reached true))
command_axis default_timeout ticket s axis (jog direction velocity acc dec) =
    ensure_axis_ready s axis false (
      enter s axis (
        create_motion ticket axis (b'S' ∷ b'C' ∷ b'A' ∷ b'N' ∷ []) direction velocity acc dec
          (pos 0) ack_only true))
command_axis default_timeout ticket s axis (index direction velocity acc dec timeout) =
    if is_set (status_of s axis).encoder_valid
    then at_once
    else ensure_axis_ready s axis false (
        enter s axis (
          create_motion ticket axis (b'I' ∷ b'N' ∷ b'D' ∷ b'X' ∷ []) direction velocity acc dec
            (settle_timeout timeout default_timeout) indexed true))
command_axis default_timeout ticket s axis reset = enter s axis (
    create_control ticket axis (b'R' ∷ b'S' ∷ b'E' ∷ b'T' ∷ []) (pos 0) (milliseconds 1000)
      ack_with_timeout)
command_axis default_timeout ticket s axis (enable true) =
    if is_set (status_of s axis).amplifiers_enabled
    then at_once
    else enter s axis (
        create_control ticket axis (b'E' ∷ b'N' ∷ b'B' ∷ b'L' ∷ []) (pos 1) (milliseconds 500)
          enabled)
command_axis default_timeout ticket s axis (enable false) =
    if is_set (status_of s axis).amplifiers_enabled
    then enter s axis (
        create_control ticket axis (b'E' ∷ b'N' ∷ b'B' ∷ b'L' ∷ []) (pos 0) (milliseconds 500)
          disabled)
    else at_once
command_axis default_timeout ticket s axis halt_drive =
    enter s axis
      (create_control ticket axis (b'H' ∷ b'A' ∷ b'L' ∷ b'T' ∷ []) (pos 0) (milliseconds 2000) halt)
command_axis default_timeout ticket s axis stop = enter s axis (
    create_control ticket axis (b'S' ∷ b'T' ∷ b'O' ∷ b'P' ∷ []) (pos 0) (milliseconds 2000)
      ack_only)
command_axis default_timeout ticket s axis
      (send_raw_command keyword parameter velocity acc dec requires_ack timeout) =
    enter s axis (
      create_motion ticket axis (normalize keyword) parameter velocity acc dec (or_zero timeout)
        ack_only requires_ack)

-- The methods behind the tests of their other arguments.
abbrev pub command_slave : ℤ → ℕ → Service → Option ℕ → Method → Answer
command_slave default_timeout ticket s none m = refused bad_argument
command_slave default_timeout ticket s (some axis) m = command_axis default_timeout ticket s axis m

-- The methods, up to `ExecuteCommandAsync`.
unfoldable pub call_method : ℤ → Bool → ℕ → Service → ℤ → Method → Answer
call_method default_timeout initialized ticket s slave m =
    if initialized
    then (if is_bad m
        then refused bad_argument
        else command_slave default_timeout ticket s (get_axis_index slave) m)
    else refused not_initialized

-- What a method does to the latch of its axis once its command has completed.
abbrev pub latch_after : Method → Option Bool
latch_after reset = some false
latch_after (enable true) = some false
latch_after stop = some true
latch_after _ = none
