-- ===== src/Service/Formatter.antt =====
-- `DriveStateFormatter` (XeryonEtherCAT.Core/Models/DriveStateFormatter.cs): a drive's state as a mask
-- of bits, and as the bytes that were on the wire.
pub mod Laws
use xeryon_ether_cat.Base.{
  ℕ, suc, List, [], ◌∷◌, ◌++◌, ◌+◌, ◌*◌, ◌/◌, ◌%◌, ◌^◌, ◌==◌, if◌then◌else◌, word32,
}
use xeryon_ether_cat.Shim.Pdo.{DriveTxPdo, le_bytes}

-- `value |= 1u << k`
abbrev pub set_bit : ℕ → ℕ → ℕ
set_bit k value = if value / 2 ^ k % 2 == 0 then value + 2 ^ k else value

-- One line for each flag, from bit `k` on: `if (flag != 0) value |= 1u << k;`
pub set_flags : ℕ → ℕ → List ℕ → ℕ
set_flags k value [] = value
set_flags k value (flag ∷ flags) =
    set_flags (suc k) (if flag == 0 then value else set_bit k value) flags

-- The flags of a state, in the order of their bits.
abbrev pub flags0 : DriveTxPdo → List ℕ
flags0 t =
    t.amplifiers_enabled ∷ t.end_stop ∷ t.thermal_protection1 ∷ t.thermal_protection2 ∷ t.force_zero
    ∷ t.motor_on ∷ t.closed_loop ∷ t.encoder_index ∷ []

abbrev pub flags1 : DriveTxPdo → List ℕ
flags1 t =
    t.encoder_valid ∷ t.searching_index ∷ t.position_reached ∷ t.error_compensation
    ∷ t.encoder_error ∷ t.scanning ∷ t.left_end_stop ∷ t.right_end_stop ∷ []

abbrev pub flags2 : DriveTxPdo → List ℕ
flags2 t =
    t.error_limit ∷ t.searching_optimal_frequency ∷ t.safety_timeout ∷ t.execute_ack
    ∷ t.emergency_stop ∷ t.position_fail ∷ []

-- `ToBitMask`
pub to_bit_mask : DriveTxPdo → ℕ
to_bit_mask status = set_flags 0 0 (flags0 status ++ (flags1 status ++ flags2 status))

-- The lines of a status byte, from bit `k` on: `b |= (byte)((flag & 0x1) << k);`
pub or_flags : ℕ → ℕ → List ℕ → ℕ
or_flags k value [] = value
or_flags k value (flag ∷ flags) =
    or_flags (suc k) (if flag % 2 == 0 then value else set_bit k value) flags

-- `DriveTxPdoToBytes`
pub drive_tx_pdo_to_bytes : DriveTxPdo → List ℕ
drive_tx_pdo_to_bytes pdo =
    le_bytes 4 (word32 pdo.actual_position)
    ++ or_flags 0 0 (flags0 pdo)
      ∷ or_flags 0 0 (flags1 pdo)
      ∷ or_flags 0 0 (flags2 pdo)
      ∷ pdo.slot
      ∷ []
