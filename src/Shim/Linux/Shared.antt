-- ===== src/Shim/Linux/Shared.antt =====
-- The functions of native/soemshim-linux/soem_shim.c whose text is that of the Windows shim, and
-- `soem_get_network_adapters`, which differs in the newlines of its messages.
use xeryon_ether_cat.Shim.Linux.Types.{
  DriveRxPdo, DriveTxPdo, SlaveInfo, Health, LogLevel, log_info,
}
use Prim.Native.String.{String}
use xeryon_ether_cat.Base.{ℕ, ℤ, Bool, Option, List, pos}
use xeryon_ether_cat.Soem.{Platform}
use xeryon_ether_cat.Shim.{M, St, Pointer, LogLine, pure, ◌>>◌}
use xeryon_ether_cat.Shim.Log
use xeryon_ether_cat.Shim.Pdo
use xeryon_ether_cat.Shim.Exchange
use xeryon_ether_cat.Shim.Init
use xeryon_ether_cat.Shim.Info
use xeryon_ether_cat.Shim.Info.{log_adapters}

abbrev pub io_rx_bytes : ℕ
io_rx_bytes = Pdo.io_rx_bytes

abbrev pub io_tx_bytes : ℕ
io_tx_bytes = Pdo.io_tx_bytes

pub soem_expected_rx_bytes : ℤ
soem_expected_rx_bytes = Pdo.soem_expected_rx_bytes

pub soem_expected_tx_bytes : ℤ
soem_expected_tx_bytes = Pdo.soem_expected_tx_bytes

module _ {X : Type 0} where
  abbrev pub soem_set_log_callback : Bool → M X (Unit {0})
  soem_set_log_callback = Log.soem_set_log_callback

  abbrev pub soem_get_slave_count : Pointer → M X ℤ
  soem_get_slave_count = Info.soem_get_slave_count

  abbrev pub soem_get_process_sizes : Pointer → Option ℤ → Option ℤ → M X (ℤ × Option ℤ × Option ℤ)
  soem_get_process_sizes = Info.soem_get_process_sizes

  abbrev pub soem_scan_slaves :
      Pointer → Option (List SlaveInfo) → ℤ → M X (ℤ × Option (List SlaveInfo))
  soem_scan_slaves = Info.soem_scan_slaves

module _ {X : Type 0} ⦃p : Platform X⦄ where
  abbrev pub log_after : LogLevel → String → St X → List LogLine
  log_after = Log.log_after

  abbrev pub soem_drain_error_list : Pointer → Option (List ℕ) → ℤ → M X (ℤ × Option (List ℕ))
  soem_drain_error_list = Info.soem_drain_error_list

  abbrev pub soem_shutdown : Pointer → M X (Unit {0})
  soem_shutdown = Init.soem_shutdown

  abbrev pub soem_read_txpdo : Pointer → ℤ → Option DriveTxPdo → M X (ℤ × Option DriveTxPdo)
  soem_read_txpdo = Pdo.soem_read_txpdo

  abbrev pub soem_write_rxpdo : Pointer → ℤ → Option DriveRxPdo → M X ℤ
  soem_write_rxpdo = Pdo.soem_write_rxpdo

  abbrev pub soem_exchange_process_data :
      Pointer → Option (List ℕ) → ℤ → Option (List ℕ) → ℤ → ℤ → M X (ℤ × Option (List ℕ))
  soem_exchange_process_data = Exchange.soem_exchange_process_data

  abbrev pub soem_initialize : Option String → M X Pointer
  soem_initialize = Init.soem_initialize

  abbrev pub soem_get_health : Pointer → Option Health → M X (ℤ × Option Health)
  soem_get_health = Info.soem_get_health

  pub soem_get_network_adapters : M X ℤ
  soem_get_network_adapters s =
      (do
        log_info "\nAvailable adapters:\n"
        log_adapters "    - %s  (%s)\n" (p.ec_find_adapters s.bus)
        pure (pos 1))
        s
