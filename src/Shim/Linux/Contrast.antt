-- ===== src/Shim/Linux/Contrast.antt =====
-- The two recoveries on one bus.
use xeryon_ether_cat.Base.{ℕ, ℤ, pos, ◌≡◌, ◌≢◌, ◌≤◌, ◌≤ℤ◌}
use xeryon_ether_cat.Soem.{Platform}
use xeryon_ether_cat.Soem.EcState
use xeryon_ether_cat.Soem.Mapping.{KeepsMapping}
use xeryon_ether_cat.Shim.{St, valid, net_of}
use xeryon_ether_cat.Shim.Mapped.{IsMapped}
use xeryon_ether_cat.Shim.Runs.{Runs}
use xeryon_ether_cat.Shim.Exchange.{expected_wkc}
use xeryon_ether_cat.Shim.Recover
use xeryon_ether_cat.Shim.Recover.Steps.{IsTimeout}
use xeryon_ether_cat.Shim.Recover.Cooperates.{Cooperates}
use xeryon_ether_cat.Shim.Recover.Succeeds.{soem_try_recover-succeeds}
use xeryon_ether_cat.Shim.Linux
use xeryon_ether_cat.Shim.Linux.Stale.{KeepsStates}
use xeryon_ether_cat.Shim.Linux.Verdict.{soem_try_recover-Stale}

module _ {X : Type 0} ⦃p : Platform X⦄ (keeps : KeepsMapping p) (states : KeepsStates p) where
  -- On a mapped bus whose slaves answer, one of which is not OPERATIONAL when the states are read,
  -- the recovery of the Windows shim returns 1, and that of the Linux shim returns 0.
  pub recoveries_differ :
      (j : ℕ) (ms : ℤ) (s : St X)
      → IsMapped s
      → IsTimeout ms
      → Cooperates p (expected_wkc s.handle.context.group)
      → 1 ≤ j
      → pos j ≤ℤ s.handle.context.slavecount
      → ((p.ecx_readstate (net_of s)).context.slavelist j).state ≢ EcState.operational
      → Runs (Recover.soem_try_recover valid ms) s (λ rc _. rc ≡ pos 1)
        × Runs (Linux.soem_try_recover valid ms) s (λ rc _. rc ≡ pos 0)
  recoveries_differ j ms s m h coop above below down =
      let (rc, t, e, q) = soem_try_recover-succeeds keeps states ms s m h coop in
      let (rc', t', e', q') = soem_try_recover-Stale keeps states j ms s m h above below down in
      ((rc, t, e, q.0), (rc', t', e', q'.0))
