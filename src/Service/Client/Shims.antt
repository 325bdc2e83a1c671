-- ===== src/Service/Client/Shims.antt =====
-- The client keeps what the service relies on, over either shim.

use mathlib.Core.Path.{subst}
use xeryon_ether_cat.Base.{
  ℕ, suc, zero, ℤ, pos, none, some, List, [], ◌≡◌, refl, inl, inr, ◌≤ℤ◌, arith, length, replicate,
  ap, Option, ◌==ℤ◌, if◌then◌else◌,
}
use xeryon_ether_cat.Soem.{Platform}
use xeryon_ether_cat.Soem.Mapping.{KeepsMapping}
use xeryon_ether_cat.Shim.{St, M, Pointer, null, valid, after, pure}
use xeryon_ether_cat.Shim.Pdo.{DriveRxPdo, DriveTxPdo}
use xeryon_ether_cat.Shim.Pdo.Image.{IsRxPdo}
use xeryon_ether_cat.Shim.Recover.Steps.{IsTimeout}
use xeryon_ether_cat.Shim.Info.{Health}
use xeryon_ether_cat.Shim.Info
use xeryon_ether_cat.Shim.Pdo
use xeryon_ether_cat.Shim.Recover
use xeryon_ether_cat.Shim.Linux
use xeryon_ether_cat.Shim.Init.Resources.{MapsInside, Released, Started, Outcome, Stays-Started}
use xeryon_ether_cat.Shim.Api.{Api, System, windows, linux, api_of}
use xeryon_ether_cat.Shim.Api.Session.{
  IsSound, Request, read, write, exchange, recover, drain, health, IsRequest, perform, code,
}
use xeryon_ether_cat.Shim.Api.Sound.{api_of-IsSound}
use xeryon_ether_cat.Service.Act.{Does, Does-map}
use xeryon_ether_cat.Service.Client.{
  soem_client, exchange_process_data, read_tx_pdo, get_health, drain_error_list, capacity, out_of,
  until_nul,
}
use xeryon_ether_cat.Service.Client.Serves.{IsServing, Held}

-- What is known of both shims besides: calls with the null handle come back with nothing held, and
-- the number of slaves is the one that was found.
record Details {X : Type 0} (api : Api X) : Type 0 where
  count :
      (s : St X)
      → Started s
      → Does (api.soem_get_slave_count valid) s (λ n t. (pos 0 ≤ℤ n) × Started t)
  write :
      (i : ℤ) (pdo : DriveRxPdo) (s : St X)
      → Released s
      → Does (api.soem_write_rxpdo null i (some pdo)) s (λ _ t. Released t)
  read :
      (i : ℤ) (old : DriveTxPdo) (s : St X)
      → Released s
      → Does (api.soem_read_txpdo null i (some old)) s (λ _ t. Released t)
  health :
      (old : Health) (s : St X)
      → Released s
      → Does (api.soem_get_health null (some old)) s (λ _ t. Released t)
  recover :
      (ms : ℤ) (s : St X) → Released s → Does (api.soem_try_recover null ms) s (λ _ t. Released t)
  drain :
      (buf : List ℕ) (size : ℤ) (s : St X)
      → Released s
      → Does (api.soem_drain_error_list null (some buf) size) s (λ _ t. Released t)

api_of-Details : {X : Type 0} ⦃p : Platform X⦄ (os : System) → Details {X = X} (api_of os)
unfolding Pdo.soem_write_rxpdo Pdo.soem_read_txpdo Info.soem_get_health Recover.soem_try_recover
    Linux.soem_try_recover Info.soem_drain_error_list
api_of-Details windows = record {
  count = λ s o. (_, s, ground (arith, o.mapped.live), (o.counted, o));
  write = λ i pdo s free. (_, s, refl, free);
  read = λ i old s free. (_, s, refl, free);
  health = λ old s free. (_, s, refl, free);
  recover = λ ms s free. (_, s, refl, free);
  drain = λ buf size s free. (
    _,
    record s { log = _ },
    refl,
    record { allocated = free.allocated; size = free.size; port_open = free.port_open },
  );
}
api_of-Details linux = record {
  count = λ s o. (_, s, ground (arith, o.mapped.live), (o.counted, o));
  write = λ i pdo s free. (_, s, refl, free);
  read = λ i old s free. (_, s, refl, free);
  health = λ old s free. (_, s, refl, free);
  recover = λ ms s free. (_, s, refl, free);
  drain = λ buf size s free. (
    _,
    record s { log = _ },
    refl,
    record { allocated = free.allocated; size = free.size; port_open = free.port_open },
  );
}

Outcome-Held : {X : Type 0} (h : Pointer) (t : St X) → Outcome h t → Held h t
Outcome-Held null t (inl (e, free)) = free
Outcome-Held null t (inr (e, o)) = absurd (ground (arith, e))
Outcome-Held valid t (inl (e, free)) = absurd (ground (arith, e))
Outcome-Held valid t (inr (e, o)) = o

-- A call with the handle, with what it gives through its pointers.
after_code :
    {X B : Type 0} (o : Option ((ℤ × B) × St X)) (rc : ℤ) (t : St X)
    → after o (λ r. pure r.0) ≡ some (rc, t)
    → Started t
    → (r : ℤ × B) × (u : St X) × (o ≡ some (r, u)) × Started u
after_code none rc t e o = absurd (ground (arith, e))
after_code {X} (some (r, u)) rc t e o =
    let given : ◌≡◌ {A = Option (ℤ × St X)} (some (r.0, u)) (some (rc, t)) = e in
    let same : t ≡ u = cc in (r, u, refl, subst (λ v. Started v) same o)

Does-code :
    {X B : Type 0} (m : M X (ℤ × B)) (s : St X)
    → Does (code m) s (λ _ t. Started t)
    → Does m s (λ _ t. Started t)
Does-code m s (rc, t, e, o) = after_code (m s) rc t e o

length-replicate : (n : ℕ) → length {A = ℕ} (replicate n 0) ≡ n
length-replicate zero = refl
length-replicate (suc n) = ap suc (length-replicate n)

module _ {X : Type 0} (api : Api X) (sound : IsSound api) (refuses : Details api) where
  -- A call with the handle.
  serves_valid :
      (q : Request) (s : St X) → IsRequest q → Started s → Does (perform api q) s (λ _ t. Started t)
  serves_valid q s fine o =
      let (rc, t, e, stays) = sound.call q s fine o.mapped in (rc, t, e, Stays-Started s t stays o)

  serves_write :
      (h : Pointer) (i : ℤ) (pdo : DriveRxPdo) (s : St X)
      → IsRxPdo pdo
      → Held h s
      → Does (api.soem_write_rxpdo h i (some pdo)) s (λ _ t. Held h t)
  serves_write null i pdo s fine free = refuses.write i pdo s free
  serves_write valid i pdo s fine o = serves_valid (write i pdo) s fine o

  serves_recover :
      (h : Pointer) (ms : ℤ) (s : St X)
      → IsTimeout ms
      → Held h s
      → Does (api.soem_try_recover h ms) s (λ _ t. Held h t)
  serves_recover null ms s fine free = refuses.recover ms s free
  serves_recover valid ms s fine o = serves_valid (recover ms) s fine o

  serves_read :
      (h : Pointer) (i : ℤ) (old : DriveTxPdo) (s : St X)
      → Held h s
      → Does (api.soem_read_txpdo h i (some old)) s (λ _ t. Held h t)
  serves_read null i old s free = refuses.read i old s free
  serves_read valid i old s o =
      Does-code (api.soem_read_txpdo valid i (some old)) s (serves_valid (read i old) s tt o)

  serves_health :
      (h : Pointer) (old : Health) (s : St X)
      → Held h s
      → Does (api.soem_get_health h (some old)) s (λ _ t. Held h t)
  serves_health null old s free = refuses.health old s free
  serves_health valid old s o =
      Does-code (api.soem_get_health valid (some old)) s (serves_valid (health old) s tt o)

  serves_drain :
      (h : Pointer) (s : St X)
      → Held h s
      → Does
          (api.soem_drain_error_list h (some (replicate capacity 0)) (pos capacity))
          s
          (λ _ t. Held h t)
  serves_drain null s free = refuses.drain (replicate capacity 0) (pos capacity) s free
  serves_drain valid s o =
      Does-code (api.soem_drain_error_list valid (some (replicate capacity 0)) (pos capacity)) s (
        serves_valid (drain (replicate capacity 0) (pos capacity)) s
          (omega (arith, length-replicate capacity)) o)

  serves_exchange :
      (h : Pointer) (timeout_us : ℤ) (s : St X)
      → Held h s
      → Does (exchange_process_data api h timeout_us) s (λ _ t. Held h t)
  unfolding exchange_process_data
  serves_exchange null timeout_us s free = (_, s, refl, free)
  serves_exchange valid timeout_us s o =
      serves_valid (exchange none (pos 0) none (pos 0) timeout_us) s (tt, tt) o

  soem_client-IsServing : IsServing (soem_client api) Held
  unfolding read_tx_pdo get_health drain_error_list
  soem_client-IsServing = record {
    initialize = λ iface s free.
        let (h, t, e, o) = sound.initialize (some iface) s free in (h, t, e, Outcome-Held h t o);
    shutdown = λ s o. sound.shutdown s o.mapped;
    get_slave_count = refuses.count;
    write_rx_pdo = serves_write;
    read_tx_pdo = λ h i old s o.
        Does-map (api.soem_read_txpdo h i (some old)) (λ r. (r.0, out_of old r.1)) s
          (serves_read h i old s o);
    exchange_process_data = serves_exchange;
    get_health = λ h old s o.
        Does-map (api.soem_get_health h (some old)) (λ r. (r.0, out_of old r.1)) s
          (serves_health h old s o);
    try_recover = serves_recover;
    drain_error_list = λ h s o.
        Does-map (api.soem_drain_error_list h (some (replicate capacity 0)) (pos capacity))
          (λ r. if r.0 ==ℤ pos 0 then [] else until_nul (out_of [] r.1)) s (serves_drain h s o);
  }

-- Over either shim.
pub shim_client-IsServing :
    {X : Type 0} ⦃p : Platform X⦄
    → KeepsMapping p
    → MapsInside p
    → (os : System) → IsServing {W = St X} (soem_client (api_of os)) Held
shim_client-IsServing keeps maps os =
    soem_client-IsServing (api_of os) (api_of-IsSound keeps maps os) (api_of-Details os)
