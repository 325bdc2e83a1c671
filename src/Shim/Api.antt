-- ===== src/Shim/Api.antt =====
-- The functions that native/soemshim/soem_shim.h exports, as an interface, and its two
-- implementations.
pub mod Sound
pub mod Session
pub mod Lives
pub mod Callers
use Prim.Native.String.{String}
use xeryon_ether_cat.Base.{ℕ, ℤ, pos, Option, List}
use xeryon_ether_cat.Soem.{Platform}
use xeryon_ether_cat.Shim.{M, Pointer}
use xeryon_ether_cat.Shim.Pdo
use xeryon_ether_cat.Shim.Pdo.{DriveRxPdo, DriveTxPdo}
use xeryon_ether_cat.Shim.Exchange
use xeryon_ether_cat.Shim.Recover
use xeryon_ether_cat.Shim.Init
use xeryon_ether_cat.Shim.Info
use xeryon_ether_cat.Shim.Info.{SlaveInfo, Health}
use xeryon_ether_cat.Shim.Linux
use xeryon_ether_cat.Shim.Linux.Shared

-- The systems that there is a shim for.
pub data System : Type 0 where
  windows : System
  linux : System

pub record Api (X : Type 0) : Type 0 where
  pub soem_initialize : Option String → M X Pointer
  pub soem_shutdown : Pointer → M X (Unit {0})
  pub soem_get_slave_count : Pointer → M X ℤ
  pub soem_get_process_sizes : Pointer → Option ℤ → Option ℤ → M X (ℤ × Option ℤ × Option ℤ)
  pub soem_scan_slaves : Pointer → Option (List SlaveInfo) → ℤ → M X (ℤ × Option (List SlaveInfo))
  pub soem_expected_rx_bytes : ℤ
  pub soem_expected_tx_bytes : ℤ
  pub soem_read_txpdo : Pointer → ℤ → Option DriveTxPdo → M X (ℤ × Option DriveTxPdo)
  pub soem_write_rxpdo : Pointer → ℤ → Option DriveRxPdo → M X ℤ
  pub soem_exchange_process_data :
      Pointer → Option (List ℕ) → ℤ → Option (List ℕ) → ℤ → ℤ → M X (ℤ × Option (List ℕ))
  pub soem_try_recover : Pointer → ℤ → M X ℤ
  pub soem_drain_error_list : Pointer → Option (List ℕ) → ℤ → M X (ℤ × Option (List ℕ))
  pub soem_get_health : Pointer → Option Health → M X (ℤ × Option Health)

module _ {X : Type 0} ⦃p : Platform X⦄ where
  abbrev pub windows_api : Api X
  windows_api = record {
    soem_initialize = Init.soem_initialize;
    soem_shutdown = Init.soem_shutdown;
    soem_get_slave_count = Info.soem_get_slave_count;
    soem_get_process_sizes = Info.soem_get_process_sizes;
    soem_scan_slaves = Info.soem_scan_slaves;
    soem_expected_rx_bytes = Pdo.soem_expected_rx_bytes;
    soem_expected_tx_bytes = Pdo.soem_expected_tx_bytes;
    soem_read_txpdo = Pdo.soem_read_txpdo;
    soem_write_rxpdo = Pdo.soem_write_rxpdo;
    soem_exchange_process_data = Exchange.soem_exchange_process_data;
    soem_try_recover = Recover.soem_try_recover;
    soem_drain_error_list = Info.soem_drain_error_list;
    soem_get_health = Info.soem_get_health;
  }

  abbrev pub linux_api : Api X
  linux_api = record {
    soem_initialize = Shared.soem_initialize;
    soem_shutdown = Shared.soem_shutdown;
    soem_get_slave_count = Shared.soem_get_slave_count;
    soem_get_process_sizes = Shared.soem_get_process_sizes;
    soem_scan_slaves = Shared.soem_scan_slaves;
    soem_expected_rx_bytes = Shared.soem_expected_rx_bytes;
    soem_expected_tx_bytes = Shared.soem_expected_tx_bytes;
    soem_read_txpdo = Shared.soem_read_txpdo;
    soem_write_rxpdo = Shared.soem_write_rxpdo;
    soem_exchange_process_data = Shared.soem_exchange_process_data;
    soem_try_recover = Linux.soem_try_recover;
    soem_drain_error_list = Shared.soem_drain_error_list;
    soem_get_health = Shared.soem_get_health;
  }

  abbrev pub api_of : System → Api X
  api_of windows = windows_api
  api_of linux = linux_api
