-- ===== src/Service/Errors.antt =====
-- The faults of drives and the codes of the shim, as the service classifies them
-- (XeryonEtherCAT.Core: Models/DriveErrorCode.cs, Models/DriveError.cs,
-- Internal/Soem/SoemErrorCodes.cs, and `TryDecodeError` of Services/EthercatDriveService.cs).
pub mod Decode
use Prim.Native.String.{String}
use xeryon_ether_cat.Base.{
  ℕ, ℤ, Option, none, some, Bool, ◌&&◌, ◌||◌, not, ◌==◌, ◌==ℤ◌, if◌then◌else◌,
}
use xeryon_ether_cat.Shim.{bad_args, send_fail, recv_fail, wkc_low}
use xeryon_ether_cat.Shim.Pdo.{DriveTxPdo}

-- `DriveErrorCode`: `no_error` is its `None`.
pub data DriveErrorCode : Type 0 where
  no_error follow_error position_fail safety_timeout emergency_stop encoder_error : DriveErrorCode
  thermal_protection end_stop_hit force_zero error_compensation_fault : DriveErrorCode
  unknown_fault : DriveErrorCode

-- `DriveError`
pub record DriveError : Type 0 where
  pub code : DriveErrorCode
  pub message : String
  pub recovery_action : String

-- `IsFatalError`
abbrev pub is_fatal_error : ℤ → Bool
is_fatal_error error_code =
    (error_code ==ℤ bad_args) || ((error_code ==ℤ send_fail) || (error_code ==ℤ recv_fail))

-- `IsRecoverableError`
abbrev pub is_recoverable_error : ℤ → Bool
is_recoverable_error error_code = error_code ==ℤ wkc_low

-- `flag != 0`
abbrev pub is_set : ℕ → Bool
is_set flag = not (flag == 0)

-- The errors that `TryDecodeError` tells of.
abbrev pub amplifier1_error : DriveError
amplifier1_error = record {
  code = thermal_protection;
  message = "Thermal overload of the piezo amplifier 1.";
  recovery_action = "Allow drive to cool; issue ENBL=1 or RSET.";
}

abbrev pub amplifier2_error : DriveError
amplifier2_error = record {
  code = thermal_protection;
  message = "Thermal overload of the piezo amplifier 2.";
  recovery_action = "Allow drive to cool; issue ENBL=1 or RSET.";
}

abbrev pub encoder_read_error : DriveError
encoder_read_error = record {
  code = encoder_error;
  message = "Encoder read error.";
  recovery_action =
      "Avoid touching the encoder strip. Check encoder wiring; perform RSET then INDX.";
}

abbrev pub following_error : DriveError
following_error = record {
  code = follow_error;
  message =
      "Following error has reached the limit set by ELIM. This can indicate a collision, or the motor not strong enough to produce the acceleration and speed required by the trajectory.";
  recovery_action =
      "Reduce speed/acceleration; issue ENBL=1 to clear. Increase ELIM or disable by setting ELIM=0";
}

abbrev pub motor_time_error : DriveError
motor_time_error = record {
  code = safety_timeout;
  message = "Motor was on for a time longer that the value set by TOU2";
  recovery_action =
      "Perform RSET or ENBL=1. Issue STOP or HALT to avoid. TOU2=0 disables this timeout. ";
}

abbrev pub stop_error : DriveError
stop_error = record {
  code = emergency_stop;
  message = "The STOP command was issued.";
  recovery_action = "Set ENBL=1 or RSET. Use HALT to avoid this error.";
}

abbrev pub settling_error : DriveError
settling_error = record {
  code = position_fail;
  message = "The actuator did not settle at the target position within the specified time (TOU3).";
  recovery_action = "Increase TOU3, PTOL or PTO2. Issue ENBL=1 or RSET";
}

abbrev pub left_end_error : DriveError
left_end_error = record {
  code = end_stop_hit;
  message = "Left End-stop detected.";
  recovery_action = "Jog away from the left limit.";
}

abbrev pub right_end_error : DriveError
right_end_error = record {
  code = end_stop_hit;
  message = "Right End-stop detected.";
  recovery_action = "Jog away from the right limit.";
}

-- `TryDecodeError`: `none` is its `false`.
unfoldable pub try_decode_error : DriveTxPdo → Option DriveError
try_decode_error status =
    if is_set status.thermal_protection1
    then some amplifier1_error
    else if is_set status.thermal_protection2
    then some amplifier2_error
    else if is_set status.encoder_error
    then some encoder_read_error
    else if is_set status.error_limit
    then some following_error
    else if is_set status.safety_timeout
    then some motor_time_error
    else if is_set status.emergency_stop
    then some stop_error
    else if is_set status.position_fail
    then some settling_error
    else if is_set status.end_stop && is_set status.left_end_stop
    then some left_end_error
    else if is_set status.end_stop && is_set status.right_end_stop
    then some right_end_error
    else none
