-- ===== src/Tests/Pdo.antt =====
-- The process-data objects on the bench.
use xeryon_ether_cat.Shim.Pdo.Apart.{soem_write_rxpdo-apart}
use xeryon_ether_cat.Shim.Init.{zero_txpdo}
use xeryon_ether_cat.Base.{
  ℕ, pos, List, ◌∷◌, replicate, some, ◌≡◌, arith, get_or, ◌+◌, ◌<◌, refl, ◌⊎◌, ◌≤◌, inr, none, ◌==◌,
  ◌%◌, if◌then◌else◌,
}
use xeryon_ether_cat.Shim.{valid, LogLine, ◌>>=◌}
use xeryon_ether_cat.Shim.Runs.{Runs}
use xeryon_ether_cat.Shim.Exchange.{soem_exchange_process_data}
use xeryon_ether_cat.Shim.Exchange.Fresh.{soem_exchange_process_data-read}
use xeryon_ether_cat.Shim.Pdo.Whole.{tx_image-unpack_txpdo}
use xeryon_ether_cat.Shim.Pdo.{
  DriveRxPdo, DriveTxPdo, soem_read_txpdo, soem_write_rxpdo, store, unpack_txpdo,
}
use xeryon_ether_cat.Shim.Pdo.Codec.{tx_image, IsTxPdo}
use xeryon_ether_cat.Shim.Pdo.Read.{Readable, soem_read_txpdo-tx_image, soem_read_txpdo_cases}
use xeryon_ether_cat.Shim.Pdo.Image.{IsRxPdo, IsStaged, rx_image}
use xeryon_ether_cat.Shim.Pdo.Write.{
  Writable, with_bytes, soem_write_rxpdo-IsStaged, soem_write_rxpdo_cases, soem_write_rxpdo_cut,
}
use xeryon_ether_cat.Tests.Bench.{bench, running, running-IsMapped, bench-KeepsMapping}

-- What the bytes 20 to 27 say.
abbrev pub reported : DriveTxPdo
reported = record {
  actual_position = pos 0x17161514;
  amplifiers_enabled = 0;
  end_stop = 0;
  thermal_protection1 = 0;
  thermal_protection2 = 1;
  force_zero = 1;
  motor_on = 0;
  closed_loop = 0;
  encoder_index = 0;
  encoder_valid = 1;
  searching_index = 0;
  position_reached = 0;
  error_compensation = 1;
  encoder_error = 1;
  scanning = 0;
  left_end_stop = 0;
  right_end_stop = 0;
  error_limit = 0;
  searching_optimal_frequency = 1;
  safety_timeout = 0;
  execute_ack = 1;
  emergency_stop = 1;
  position_fail = 0;
  slot = 27;
}

pub reported-IsTxPdo : IsTxPdo reported
reported-IsTxPdo = record {
  actual_position = omega arith;
  first = ground arith;
  second = ground arith;
  third = ground arith;
  slot = omega arith;
}

first-Readable : Readable running (pos 1) 20
first-Readable = record {
  above = omega arith;
  below = omega arith;
  mapped = refl;
  enough = omega arith;
  small = omega arith;
}

first-Writable : Writable running (pos 1) 0
first-Writable = record {
  above = omega arith;
  below = omega arith;
  mapped = refl;
  enough = omega arith;
  small = omega arith;
}

-- "DPOS" to 1000.
abbrev pub move : DriveRxPdo
move = record {
  command = b'D' ∷ b'P' ∷ b'O' ∷ b'S' ∷ replicate 28 0;
  parameter = pos 1000;
  velocity = 5000;
  acceleration = 100;
  deceleration = 200;
  execute = 1;
}

pub move-IsRxPdo : IsRxPdo move
move-IsRxPdo = record {
  command = refl;
  parameter = omega arith;
  velocity = omega arith;
  acceleration = omega arith;
  deceleration = omega arith;
  execute = omega arith;
}

eight_bytes : (k : ℕ) → k < 8 → running.iomap.byte (20 + k) ≡ get_or (tx_image reported) k 0
eight_bytes k h = ground arith

soem_read_txpdo-tx_image_example :
    soem_read_txpdo ⦃p = bench (pos 3)⦄ valid (pos 1) (some zero_txpdo) running
    ≡ some ((pos 1, some reported), running)
soem_read_txpdo-tx_image_example =
    soem_read_txpdo-tx_image ⦃p = bench (pos 3)⦄ running (pos 1) zero_txpdo reported 20
      running-IsMapped first-Readable reported-IsTxPdo eight_bytes

soem_read_txpdo_cases_example :
    ((buf : ℕ) × Readable running (pos 7) buf
      × (soem_read_txpdo ⦃p = bench (pos 3)⦄ valid (pos 7) (some zero_txpdo) running
          ≡ some ((pos 1, some (unpack_txpdo (λ k. running.iomap.byte (buf + k)))), running)))
    ⊎ ((lines : List LogLine) × ((buf : ℕ) → ¬ Readable running (pos 7) buf)
        × (soem_read_txpdo ⦃p = bench (pos 3)⦄ valid (pos 7) (some zero_txpdo) running
            ≡ some ((pos 0, some zero_txpdo), record running { log = lines })))
soem_read_txpdo_cases_example =
    soem_read_txpdo_cases ⦃p = bench (pos 3)⦄ running (pos 7) zero_txpdo running-IsMapped

soem_write_rxpdo-IsStaged_example :
    (mem : ℕ → ℕ) × (soem_write_rxpdo ⦃p = bench (pos 3)⦄ valid (pos 1) (some move) running
      ≡ some (pos 1, with_bytes running mem))
    × IsStaged mem 0 move
    × ((a : ℕ) → (mem a ≡ running.iomap.byte a) ⊎ ((0 ≤ a) × (a < 0 + 17)))
soem_write_rxpdo-IsStaged_example =
    soem_write_rxpdo-IsStaged ⦃p = bench (pos 3)⦄ running (pos 1) move 0 running-IsMapped
      first-Writable move-IsRxPdo

soem_write_rxpdo_cases_example :
    ((buf : ℕ) × Writable running (pos 1) buf
      × (soem_write_rxpdo ⦃p = bench (pos 3)⦄ valid (pos 1) (some move) running
          ≡ some (pos 1, with_bytes running (store running.iomap.byte buf (rx_image move)))))
    ⊎ ((lines : List LogLine) × ((buf : ℕ) → ¬ Writable running (pos 1) buf)
        × (soem_write_rxpdo ⦃p = bench (pos 3)⦄ valid (pos 1) (some move) running
            ≡ some (pos 0, record running { log = lines })))
soem_write_rxpdo_cases_example =
    soem_write_rxpdo_cases ⦃p = bench (pos 3)⦄ running (pos 1) move running-IsMapped move-IsRxPdo

-- What the bytes 40 to 56 ask for.
abbrev staged_before : DriveRxPdo
staged_before = record {
  command = 40 ∷ 41 ∷ 42 ∷ 43 ∷ replicate 28 0;
  parameter = pos 791555372;
  velocity = 858927408;
  acceleration = 13620;
  deceleration = 14134;
  execute = 56;
}

staged_before-IsStaged : IsStaged running.iomap.byte 40 staged_before
staged_before-IsStaged = record {
  command = λ k below. ground arith;
  parameter = refl;
  velocity = refl;
  acceleration = refl;
  deceleration = refl;
  execute = refl;
}

soem_write_rxpdo-apart_example :
    (mem : ℕ → ℕ) × (soem_write_rxpdo ⦃p = bench (pos 3)⦄ valid (pos 1) (some move) running
      ≡ some (pos 1, with_bytes running mem))
    × IsStaged mem 0 move
    × IsStaged mem 40 staged_before
soem_write_rxpdo-apart_example =
    soem_write_rxpdo-apart ⦃p = bench (pos 3)⦄ running (pos 1) move staged_before 0 40
      running-IsMapped first-Writable move-IsRxPdo staged_before-IsStaged (inr (omega arith))

tx_image-unpack_txpdo_example :
    IsTxPdo (unpack_txpdo (λ k. 200 + k))
    × ((k : ℕ)
        → (7 < k)
          ⊎ (get_or (tx_image (unpack_txpdo (λ k. 200 + k))) k 0
              ≡ (if k == 6 then 206 % 64 else 200 + k)))
tx_image-unpack_txpdo_example = tx_image-unpack_txpdo (λ k. 200 + k) (λ k below. omega arith)

soem_exchange_process_data-read_example :
    Runs
      (do
        cycle ←
            soem_exchange_process_data ⦃p = bench (pos 3)⦄ valid none
              (pos 0)
              none
              (pos 0)
              (pos 2000)
        soem_read_txpdo ⦃p = bench (pos 3)⦄ valid (pos 1) (some zero_txpdo))
      running
      (λ r _. r ≡ (pos 1, some reported))
soem_exchange_process_data-read_example =
    soem_exchange_process_data-read ⦃p = bench (pos 3)⦄ none (pos 0) (pos 2000) running (pos 1)
      zero_txpdo reported 20 (bench-KeepsMapping (pos 3)) running-IsMapped tt first-Readable
      reported-IsTxPdo (omega arith) eight_bytes

-- "DPOSITION" is "DPOS" to the drive.
abbrev position : List ℕ
position = b'D' ∷ b'P' ∷ b'O' ∷ b'S' ∷ b'I' ∷ b'T' ∷ b'I' ∷ b'O' ∷ b'N' ∷ replicate 23 0

soem_write_rxpdo_cut_example :
    soem_write_rxpdo ⦃p = bench (pos 3)⦄ valid
      (pos 1)
      (some (record move { command = position }))
      running
    ≡ soem_write_rxpdo ⦃p = bench (pos 3)⦄ valid (pos 1) (some move) running
soem_write_rxpdo_cut_example =
    soem_write_rxpdo_cut ⦃p = bench (pos 3)⦄ valid (pos 1) move position running refl
