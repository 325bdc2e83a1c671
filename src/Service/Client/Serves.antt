-- ===== src/Service/Client/Serves.antt =====
-- What the service relies on in its client.
use Prim.Native.String.{String}
use xeryon_ether_cat.Base.{ℤ, pos, ◌≤ℤ◌}
use xeryon_ether_cat.Shim.{St, Pointer, null, valid}
use xeryon_ether_cat.Shim.Pdo.{DriveRxPdo, DriveTxPdo}
use xeryon_ether_cat.Shim.Pdo.Image.{IsRxPdo}
use xeryon_ether_cat.Shim.Recover.Steps.{IsTimeout}
use xeryon_ether_cat.Shim.Info.{Health}
use xeryon_ether_cat.Shim.Init.Resources.{Released, Started}
use xeryon_ether_cat.Service.Act.{Does}
use xeryon_ether_cat.Service.Client.{SoemClient}

module _ {W : Type 0} (client : SoemClient W) (Holds : Pointer → W → Type 0) where
  -- What a client owes the service: its calls come back, also those with the null handle, and the
  -- handle that the service holds stays what it was.
  pub record IsServing : Type 0 where
    pub initialize :
        (iface : String) (w : W) → Holds null w → Does (client.initialize iface) w Holds
    pub shutdown : (w : W) → Holds valid w → Does (client.shutdown valid) w (λ _ u. Holds null u)
    pub get_slave_count :
        (w : W)
        → Holds valid w
        → Does (client.get_slave_count valid) w (λ n u. (pos 0 ≤ℤ n) × Holds valid u)
    pub write_rx_pdo :
        (h : Pointer) (i : ℤ) (pdo : DriveRxPdo) (w : W)
        → IsRxPdo pdo
        → Holds h w
        → Does (client.write_rx_pdo h i pdo) w (λ _ u. Holds h u)
    pub read_tx_pdo :
        (h : Pointer) (i : ℤ) (old : DriveTxPdo) (w : W)
        → Holds h w
        → Does (client.read_tx_pdo h i old) w (λ _ u. Holds h u)
    pub exchange_process_data :
        (h : Pointer) (timeout_us : ℤ) (w : W)
        → Holds h w
        → Does (client.exchange_process_data h timeout_us) w (λ _ u. Holds h u)
    pub get_health :
        (h : Pointer) (old : Health) (w : W)
        → Holds h w
        → Does (client.get_health h old) w (λ _ u. Holds h u)
    pub try_recover :
        (h : Pointer) (timeout_ms : ℤ) (w : W)
        → IsTimeout timeout_ms
        → Holds h w
        → Does (client.try_recover h timeout_ms) w (λ _ u. Holds h u)
    pub drain_error_list :
        (h : Pointer) (w : W) → Holds h w → Does (client.drain_error_list h) w (λ _ u. Holds h u)

-- A null handle is held while nothing is, and the other while the bus runs.
abbrev pub Held : {X : Type 0} → Pointer → St X → Type 0
Held null s = Released s
Held valid s = Started s
