-- ===== src/Service/Client.antt =====
-- What the service uses of the shim (XeryonEtherCAT.Core/Internal/Soem: ISoemClient.cs, and
-- SoemClient.cs over the imports of SoemShim.cs).
pub mod Serves
pub mod Shims
use Prim.Native.String.{String}
use xeryon_ether_cat.Base.{
  ℕ, ℤ, pos, negsuc, Option, none, some, List, [], ◌==ℤ◌, ◌==◌, ◌∷◌, if◌then◌else◌, replicate,
}
use xeryon_ether_cat.Shim.{Pointer, null, valid, St}
use xeryon_ether_cat.Shim.Pdo.{DriveRxPdo, DriveTxPdo}
use xeryon_ether_cat.Shim.Info.{Health}
use xeryon_ether_cat.Shim.Api.{Api}
use xeryon_ether_cat.Service.Act.{Act, done, ◌>>=◌}

-- `ISoemClient`, but for the operations that the service's loop does not use. An `out` parameter
-- has what its storage holds before the call as an argument.
pub record SoemClient (W : Type 0) : Type 0 where
  pub initialize : String → Act W Pointer
  pub shutdown : Pointer → Act W (Unit {0})
  pub get_slave_count : Pointer → Act W ℤ
  pub write_rx_pdo : Pointer → ℤ → DriveRxPdo → Act W ℤ
  pub read_tx_pdo : Pointer → ℤ → DriveTxPdo → Act W (ℤ × DriveTxPdo)
  pub exchange_process_data : Pointer → ℤ → Act W ℤ
  pub get_health : Pointer → Health → Act W (ℤ × Health)
  pub try_recover : Pointer → ℤ → Act W ℤ
  pub drain_error_list : Pointer → Act W (List ℕ)

-- `Capacity` of the service's `_errorBuffer`
abbrev pub capacity : ℕ
capacity = 4096

-- What an `out` parameter holds after a call.
abbrev pub out_of : {A : Type 0} → A → Option A → A
out_of old none = old
out_of old (some new) = new

-- The text of a `StringBuilder` behind a call: the bytes up to the NUL.
abbrev pub until_nul : List ℕ → List ℕ
until_nul [] = []
until_nul (c ∷ cs) = if c == 0 then [] else c ∷ until_nul cs

module _ {X : Type 0} (api : Api X) where
  -- `ExchangeProcessData`
  unfoldable pub exchange_process_data : Pointer → ℤ → Act (St X) ℤ
  exchange_process_data null timeout_us = done (negsuc 0)
  exchange_process_data valid timeout_us = do
    r ← api.soem_exchange_process_data valid none (pos 0) none (pos 0) timeout_us
    done r.0

  -- `ReadTxPdo`
  pub read_tx_pdo : Pointer → ℤ → DriveTxPdo → Act (St X) (ℤ × DriveTxPdo)
  read_tx_pdo h slave_index old = do
    r ← api.soem_read_txpdo h slave_index (some old)
    done (r.0, out_of old r.1)

  -- `GetHealth`
  pub get_health : Pointer → Health → Act (St X) (ℤ × Health)
  get_health h old = do r ← api.soem_get_health h (some old); done (r.0, out_of old r.1)

  -- `DrainErrorList`: the buffer is passed on empty, with zeros, and its text ends at the NUL.
  pub drain_error_list : Pointer → Act (St X) (List ℕ)
  drain_error_list h = do
    r ← api.soem_drain_error_list h (some (replicate capacity 0)) (pos capacity)
    done (if r.0 ==ℤ pos 0 then [] else until_nul (out_of [] r.1))

  -- `SoemClient`
  abbrev pub soem_client : SoemClient (St X)
  soem_client = record {
    initialize = λ iface. api.soem_initialize (some iface);
    shutdown = api.soem_shutdown;
    get_slave_count = api.soem_get_slave_count;
    write_rx_pdo = λ h i pdo. api.soem_write_rxpdo h i (some pdo);
    read_tx_pdo = read_tx_pdo;
    exchange_process_data = exchange_process_data;
    get_health = get_health;
    try_recover = api.soem_try_recover;
    drain_error_list = drain_error_list;
  }
