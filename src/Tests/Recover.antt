-- ===== src/Tests/Recover.antt =====
-- Recoveries on the bench.
use xeryon_ether_cat.Base.{pos, arith, pos_part, ◌≡◌, ◌+◌}
use xeryon_ether_cat.Shim.{valid}
use xeryon_ether_cat.Shim.Runs.{Runs, Stays}
use xeryon_ether_cat.Shim.Exchange.{expected_wkc}
use xeryon_ether_cat.Shim.Recover.{soem_try_recover, force_full_reinit_slave}
use xeryon_ether_cat.Shim.Recover.Reinit.{Reinit, force_full_reinit_slave-Reinit}
use xeryon_ether_cat.Shim.Recover.Success.{Recovered, soem_try_recover-Recovered}
use xeryon_ether_cat.Shim.Recover.Verify.{AllOp, GoodCycle}
use xeryon_ether_cat.Shim.Recover.Succeeds.{soem_try_recover-succeeds}
use xeryon_ether_cat.Shim.Linux
use xeryon_ether_cat.Shim.Linux.Verdict
use xeryon_ether_cat.Shim.Linux.Contrast.{recoveries_differ}
use xeryon_ether_cat.Shim.Linux.Ends
use xeryon_ether_cat.Tests.Bench.{
  bench, waiting, waiting-IsMapped, bench-KeepsMapping, bench-KeepsStates, bench-Cooperates,
}

soem_try_recover-Recovered_example :
    Runs
      (soem_try_recover ⦃p = bench (pos 3)⦄ valid (pos 100))
      waiting
      (Recovered (expected_wkc waiting.handle.context.group) waiting)
soem_try_recover-Recovered_example =
    soem_try_recover-Recovered ⦃p = bench (pos 3)⦄ (bench-KeepsMapping (pos 3)) (pos 100) waiting
      waiting-IsMapped (omega arith)

force_full_reinit_slave-Reinit_example :
    Runs
      (force_full_reinit_slave ⦃p = bench (pos 3)⦄ valid (pos 1) (pos 100))
      waiting
      (Reinit ⦃p = bench (pos 3)⦄ (bench-KeepsMapping (pos 3)) 1 (pos 100) waiting)
force_full_reinit_slave-Reinit_example =
    force_full_reinit_slave-Reinit ⦃p = bench (pos 3)⦄ (bench-KeepsMapping (pos 3)) 1 (pos 100)
      waiting waiting-IsMapped (omega arith) (omega arith) (omega arith)

soem_try_recover-Stale_example :
    Runs (Linux.soem_try_recover ⦃p = bench (pos 3)⦄ valid (pos 100)) waiting (
      Verdict.Failed ⦃p = bench (pos 3)⦄
        (bench-KeepsMapping (pos 3))
        (bench-KeepsStates (pos 3))
        1
        waiting)
soem_try_recover-Stale_example =
    Verdict.soem_try_recover-Stale ⦃p = bench (pos 3)⦄ (bench-KeepsMapping (pos 3))
      (bench-KeepsStates (pos 3)) 1 (pos 100) waiting waiting-IsMapped (omega arith) (omega arith)
      (omega arith) (ground arith)

soem_try_recover-Verified_example :
    Runs
      (Linux.soem_try_recover ⦃p = bench (pos 3)⦄ valid (pos 100))
      waiting
      (λ rc t. Stays waiting t × Ends.Verified rc t)
soem_try_recover-Verified_example =
    Ends.soem_try_recover-Verified ⦃p = bench (pos 3)⦄ (bench-KeepsMapping (pos 3)) (pos 100)
      waiting waiting-IsMapped (omega arith)

soem_try_recover-succeeds_example :
    Runs (soem_try_recover ⦃p = bench (pos 3)⦄ valid (pos 100)) waiting (λ rc t.
      (rc ≡ pos 1)
      × Stays waiting t
      × AllOp (pos_part t.handle.context.slavecount + 1) t
      × GoodCycle (pos 3) t)
soem_try_recover-succeeds_example =
    soem_try_recover-succeeds ⦃p = bench (pos 3)⦄ (bench-KeepsMapping (pos 3))
      (bench-KeepsStates (pos 3)) (pos 100) waiting waiting-IsMapped (omega arith) bench-Cooperates

recoveries_differ_example :
    Runs (soem_try_recover ⦃p = bench (pos 3)⦄ valid (pos 100)) waiting (λ rc _. rc ≡ pos 1)
    × Runs (Linux.soem_try_recover ⦃p = bench (pos 3)⦄ valid (pos 100)) waiting (λ rc _. rc ≡ pos 0)
recoveries_differ_example =
    recoveries_differ ⦃p = bench (pos 3)⦄ (bench-KeepsMapping (pos 3)) (bench-KeepsStates (pos 3)) 1
      (pos 100) waiting waiting-IsMapped (omega arith) bench-Cooperates (omega arith) (omega arith)
      (ground arith)
