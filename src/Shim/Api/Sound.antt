-- ===== src/Shim/Api/Sound.antt =====
-- The two shims as implementations of the exported functions.
use xeryon_ether_cat.Shim.Info.{soem_scan_slaves, soem_drain_error_list, soem_get_health}
use xeryon_ether_cat.Shim.Exchange.{soem_exchange_process_data}
use xeryon_ether_cat.Shim.Pdo.{soem_read_txpdo}
use xeryon_ether_cat.Base.{ℤ, some, arith}
use xeryon_ether_cat.Soem.{Platform}
use xeryon_ether_cat.Soem.Mapping.{KeepsMapping}
use xeryon_ether_cat.Shim.{St, M, Pointer, valid}
use xeryon_ether_cat.Shim.Mapped.{IsMapped}
use xeryon_ether_cat.Shim.Runs.{Runs, Stays, Stays-refl}
use xeryon_ether_cat.Shim.Pdo.Calls.{write-Stays, read-Stays}
use xeryon_ether_cat.Shim.Exchange.Cycle.{soem_exchange_process_data-codes}
use xeryon_ether_cat.Shim.Recover
use xeryon_ether_cat.Shim.Recover.Steps.{IsTimeout}
use xeryon_ether_cat.Shim.Recover.Success.{soem_try_recover-Recovered}
use xeryon_ether_cat.Shim.Linux
use xeryon_ether_cat.Shim.Linux.Ends.{soem_try_recover-Verified}
use xeryon_ether_cat.Shim.Info.Calls.{sizes-Stays, scan-Stays, health-Stays, drain-Stays}
use xeryon_ether_cat.Shim.Init.Resources.{MapsInside, Released}
use xeryon_ether_cat.Shim.Init.Lifecycle.{soem_initialize-Outcome, soem_shutdown-Released}
use xeryon_ether_cat.Shim.Api.{Api, System, windows, linux, api_of, windows_api, linux_api}
use xeryon_ether_cat.Shim.Api.Session.{
  Request, count, sizes, scan, read, write, exchange, recover, drain, health, IsRequest, perform,
  code, IsSound,
}

code-Stays :
    {X B : Type 0} (m : M X (ℤ × B)) (s : St X)
    → Runs m s (λ _ t. Stays s t)
    → Runs (code m) s (λ _ t. Stays s t)
code-Stays m s (r, t, e, q) = (r.0, t, ground (arith, e), q)

module _ {X : Type 0} ⦃p : Platform X⦄ (keeps : KeepsMapping p)
    (recovery : Pointer → ℤ → M X ℤ) where
  -- The two shims, which differ in the recovery.
  abbrev shim_api : Api X
  shim_api = record windows_api { soem_try_recover = recovery }

  call-Stays :
      ((ms : ℤ) (s : St X)
        → IsMapped s
        → IsTimeout ms
        → Runs (recovery valid ms) s (λ _ t. Stays s t))
      → (q : Request) (s : St X) → IsRequest q
      → IsMapped s
      → Runs (perform shim_api q) s (λ _ t. Stays s t)
  call-Stays ends count s h m =
      (s.handle.context.slavecount, s, ground (arith, m.live), Stays-refl s m)
  call-Stays ends (sizes outputs inputs) s h m =
      let (r, t, e, q) = sizes-Stays outputs inputs s m in (r.0, t, ground (arith, e), q)
  call-Stays ends (scan buffer max_count) s h m =
      code-Stays (soem_scan_slaves valid (some buffer) max_count) s
        (scan-Stays buffer max_count s h m)
  call-Stays ends (read i old) s h m =
      code-Stays (soem_read_txpdo valid i (some old)) s (read-Stays i old s m)
  call-Stays ends (write i rx) s h m = write-Stays i rx s h m
  call-Stays ends (exchange outputs outputs_len inputs inputs_len timeout_us) s h m =
      let (mem, rc, out, t, prepared, e, q, codes) =
        soem_exchange_process_data-codes outputs inputs outputs_len inputs_len timeout_us s keeps m
          h.0 h.1 in
      code-Stays (soem_exchange_process_data valid outputs outputs_len inputs inputs_len timeout_us)
        s ((rc, out), t, e, q)
  call-Stays ends (recover timeout_ms) s h m = ends timeout_ms s m h
  call-Stays ends (drain buf buf_sz) s h m =
      code-Stays (soem_drain_error_list valid (some buf) buf_sz) s
        (drain-Stays keeps buf buf_sz s h m)
  call-Stays ends (health old) s h m =
      code-Stays (soem_get_health valid (some old)) s (health-Stays keeps old s m)

module _ {X : Type 0} ⦃p : Platform X⦄ (keeps : KeepsMapping p) where
  windows_api-Stays :
      (q : Request) (s : St X)
      → IsRequest q
      → IsMapped s
      → Runs (perform windows_api q) s (λ _ t. Stays s t)
  windows_api-Stays =
      call-Stays keeps Recover.soem_try_recover
        λ ms s m h. let (rc, t, e, q) = soem_try_recover-Recovered keeps ms s m h in (rc, t, e, q.0)

  linux_api-Stays :
      (q : Request) (s : St X)
      → IsRequest q
      → IsMapped s
      → Runs (perform linux_api q) s (λ _ t. Stays s t)
  linux_api-Stays =
      call-Stays keeps Linux.soem_try_recover
        λ ms s m h. let (rc, t, e, q) = soem_try_recover-Verified keeps ms s m h in (rc, t, e, q.0)

  -- On a mapped bus every call of either shim comes back without a fault, if its arguments are ones
  -- that a caller may pass. It leaves the bus mapped, with its slaves, its IO map and its port.
  pub api_of-Stays :
      (os : System) (q : Request) (s : St X)
      → IsRequest q
      → IsMapped s
      → Runs (perform (api_of os) q) s (λ _ t. Stays s t)
  api_of-Stays windows = windows_api-Stays
  api_of-Stays linux = linux_api-Stays

module _ {X : Type 0} ⦃p : Platform X⦄ (keeps : KeepsMapping p) (maps : MapsInside p) where
  shutdown-Released :
      (s : St X) → IsMapped s → Runs (windows_api.soem_shutdown valid) s (λ _ t. Released t)
  shutdown-Released s m = let (u, t, e, q) = soem_shutdown-Released keeps s m in (u, t, e, q.0)

  pub api_of-IsSound : (os : System) → IsSound {X = X} (api_of os)
  api_of-IsSound windows = record {
    initialize = soem_initialize-Outcome keeps maps;
    shutdown = shutdown-Released;
    call = windows_api-Stays keeps;
  }
  api_of-IsSound linux = record {
    initialize = soem_initialize-Outcome keeps maps;
    shutdown = shutdown-Released;
    call = linux_api-Stays keeps;
  }
