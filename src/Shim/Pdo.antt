-- ===== src/Shim/Pdo.antt =====
-- The process-data objects of soem_shim.h, and `soem_read_txpdo` and `soem_write_rxpdo` of
-- soem_shim.c with the sizes of their images. The machine is little-endian, as the code assumes
-- (it copies words by `memcpy`).
pub mod Whole
pub mod Apart
pub mod Calls
pub mod Codec
pub mod Read
pub mod Store
pub mod Image
pub mod Write
use xeryon_ether_cat.Base.{
  ℕ, zero, suc, ℤ, pos, Option, none, some, Bool, List, [], ◌∷◌, ◌+◌, ◌-◌, ◌*◌, ◌/◌, ◌%◌, ◌^◌, ltb,
  leb, ltb_ℤ, leb_ℤ, ◌&&◌, ◌||◌, bit_and, signed32, word32, length, get_or, take, pos_part,
  if◌then◌else◌,
}
use xeryon_ether_cat.Soem.{Slave, Context, Platform}
use xeryon_ether_cat.Shim.{M, Pointer, null, valid, pure, ◌>>=◌, ◌>>◌, get_context, get_slave, view}
use xeryon_ether_cat.Shim.Log.{log_err}

-- `DriveRxPDO`: `command` has 32 bytes; the numbers are those of the C types.
pub record DriveRxPdo : Type 0 where
  pub command : List ℕ
  pub parameter : ℤ
  pub velocity : ℕ
  pub acceleration : ℕ
  pub deceleration : ℕ
  pub execute : ℕ

-- `DriveTxPDO`
pub record DriveTxPdo : Type 0 where
  pub actual_position : ℤ
  pub amplifiers_enabled : ℕ
  pub end_stop : ℕ
  pub thermal_protection1 : ℕ
  pub thermal_protection2 : ℕ
  pub force_zero : ℕ
  pub motor_on : ℕ
  pub closed_loop : ℕ
  pub encoder_index : ℕ
  pub encoder_valid : ℕ
  pub searching_index : ℕ
  pub position_reached : ℕ
  pub error_compensation : ℕ
  pub encoder_error : ℕ
  pub scanning : ℕ
  pub left_end_stop : ℕ
  pub right_end_stop : ℕ
  pub error_limit : ℕ
  pub searching_optimal_frequency : ℕ
  pub safety_timeout : ℕ
  pub execute_ack : ℕ
  pub emergency_stop : ℕ
  pub position_fail : ℕ
  pub slot : ℕ

-- `IO_RX_BYTES` and `IO_TX_BYTES`
abbrev pub io_rx_bytes : ℕ
io_rx_bytes = 20

abbrev pub io_tx_bytes : ℕ
io_tx_bytes = 8

pub soem_expected_rx_bytes : ℤ
soem_expected_rx_bytes = pos io_rx_bytes

pub soem_expected_tx_bytes : ℤ
soem_expected_tx_bytes = pos io_tx_bytes

-- The bytes of a word in memory, the low one first, and a word of four bytes.
abbrev pub le_bytes : ℕ → ℕ → List ℕ
le_bytes zero w = []
le_bytes (suc n) w = (w % 256) ∷ le_bytes n (w / 256)

abbrev pub le_word32 : (ℕ → ℕ) → ℕ
le_word32 buf = buf 0 + 256 * buf 1 + 65536 * buf 2 + 16777216 * buf 3

-- `(b >> k) & 0x1`
abbrev pub bit_of : ℕ → ℕ → ℕ
bit_of b k = bit_and (b / 2 ^ k) 0x1

-- The body of `soem_read_txpdo` behind its checks, on the eight bytes at `slave->inputs`.
pub unpack_txpdo : (ℕ → ℕ) → DriveTxPdo
unpack_txpdo buf =
    let b4 = buf 4 in
    let b5 = buf 5 in
    let b6 = buf 6 in
    record {
      actual_position = signed32 (le_word32 buf);
      amplifiers_enabled = bit_of b4 0;
      end_stop = bit_of b4 1;
      thermal_protection1 = bit_of b4 2;
      thermal_protection2 = bit_of b4 3;
      force_zero = bit_of b4 4;
      motor_on = bit_of b4 5;
      closed_loop = bit_of b4 6;
      encoder_index = bit_of b4 7;
      encoder_valid = bit_of b5 0;
      searching_index = bit_of b5 1;
      position_reached = bit_of b5 2;
      error_compensation = bit_of b5 3;
      encoder_error = bit_of b5 4;
      scanning = bit_of b5 5;
      left_end_stop = bit_of b5 6;
      right_end_stop = bit_of b5 7;
      error_limit = bit_of b6 0;
      searching_optimal_frequency = bit_of b6 1;
      safety_timeout = bit_of b6 2;
      execute_ack = bit_of b6 3;
      emergency_stop = bit_of b6 4;
      position_fail = bit_of b6 5;
      slot = buf 7;
    }

-- `memcpy(&mem[at], bytes, length)`
pub store : (ℕ → ℕ) → ℕ → List ℕ → ℕ → ℕ
store mem at bytes a =
    if leb at a && ltb a (at + length bytes) then get_or bytes (a - at) 0 else mem a

-- A copy into the IO map.
abbrev pub put_bytes : {X : Type 0} → ℕ → List ℕ → M X (Unit {0})
put_bytes at bytes s =
    if leb (at + length bytes) s.iomap.size
    then some (tt, record s { iomap = record s.iomap { byte = store s.iomap.byte at bytes } })
    else none

-- The copies of `soem_write_rxpdo`, to `slave->outputs`.
pub put_rxpdo : {X : Type 0} → ℕ → DriveRxPdo → M X (Unit {0})
put_rxpdo buf rx = do
  put_bytes buf (take 4 rx.command)
  put_bytes (buf + 4) (le_bytes 4 (word32 rx.parameter))
  put_bytes (buf + 8) (le_bytes 4 rx.velocity)
  put_bytes (buf + 12) (le_bytes 2 rx.acceleration)
  put_bytes (buf + 14) (le_bytes 2 rx.deceleration)
  put_bytes (buf + 16) (rx.execute ∷ [])

-- `slave_index <= 0 || slave_index > handle->context.slavecount`
abbrev pub out_of_range : ℤ → Context → Bool
out_of_range slave_index c = leb_ℤ slave_index (pos 0) || ltb_ℤ c.slavecount slave_index

module _ {X : Type 0} ⦃p : Platform X⦄ where
  -- The part of `soem_read_txpdo` that follows the lookup of the slave.
  pub read_slave : Slave → DriveTxPdo → M X (ℤ × Option DriveTxPdo)
  unfolding unpack_txpdo
  read_slave slave old = elim slave.inputs [
    | none ↦ pure (pos 0, some old)
    | some buf ↦
        if ltb_ℤ (signed32 slave.ibytes) (pos io_tx_bytes)
        then (do
          log_err "soem_read_txpdo: slave %d Ibytes too small (%d < %d)"
          pure (pos 0, some old))
        else (do bytes ← view buf io_tx_bytes; pure (pos 1, some (unpack_txpdo bytes)))
  ]

  -- `soem_read_txpdo`: the second argument is `slave_index`; the last one is what `out` points to,
  -- `none` for NULL, and comes back as it is left.
  unfoldable pub soem_read_txpdo : Pointer → ℤ → Option DriveTxPdo → M X (ℤ × Option DriveTxPdo)
  unfolding read_slave
  soem_read_txpdo null slave_index out = pure (pos 0, out)
  soem_read_txpdo valid slave_index none = pure (pos 0, none)
  soem_read_txpdo valid slave_index (some old) = do
    c ← get_context
    if out_of_range slave_index c
        then pure (pos 0, some old)
        else (do slave ← get_slave (pos_part slave_index); read_slave slave old)

  -- The part of `soem_write_rxpdo` that follows the lookup of the slave.
  pub write_slave : Slave → DriveRxPdo → M X ℤ
  unfolding put_rxpdo
  write_slave slave rx = elim slave.outputs [
    | none ↦ pure (pos 0)
    | some buf ↦
        if ltb_ℤ (signed32 slave.obytes) (pos io_rx_bytes)
        then (do log_err "soem_write_rxpdo: slave %d Obytes too small (%d < %d)"; pure (pos 0))
        else (do put_rxpdo buf rx; pure (pos 1))
  ]

  -- `soem_write_rxpdo`; the last argument is what `in` points to, `none` for NULL.
  unfoldable pub soem_write_rxpdo : Pointer → ℤ → Option DriveRxPdo → M X ℤ
  unfolding write_slave
  soem_write_rxpdo null slave_index rx = pure (pos 0)
  soem_write_rxpdo valid slave_index none = pure (pos 0)
  soem_write_rxpdo valid slave_index (some rx) = do
    c ← get_context
    if out_of_range slave_index c
        then pure (pos 0)
        else (do slave ← get_slave (pos_part slave_index); write_slave slave rx)
