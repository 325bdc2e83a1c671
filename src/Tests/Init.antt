-- ===== src/Tests/Init.antt =====
-- The handle's life on the bench.
use xeryon_ether_cat.Base.{pos, ◌∷◌, ◌≡◌, none, some}
use xeryon_ether_cat.Soem.EcState
use xeryon_ether_cat.Shim.{Call, valid, ◌>>=◌}
use xeryon_ether_cat.Shim.Runs.{Runs}
use xeryon_ether_cat.Shim.Init.{soem_initialize, soem_shutdown}
use xeryon_ether_cat.Shim.Init.Resources.{Released, Started, Outcome}
use xeryon_ether_cat.Shim.Init.Succeeds.{soem_initialize-Started}
use xeryon_ether_cat.Shim.Init.Lifecycle.{
  soem_initialize-Outcome, soem_shutdown-Released, initialize_shutdown-Released,
}
use xeryon_ether_cat.Tests.Bench.{
  bench, running, running-IsMapped, fresh, fresh-Released, bench-KeepsMapping, bench-MapsInside,
  bench-Answers,
}

soem_initialize-Outcome_example : Runs (soem_initialize ⦃p = bench (pos 3)⦄ none) fresh Outcome
soem_initialize-Outcome_example =
    soem_initialize-Outcome ⦃p = bench (pos 3)⦄ (bench-KeepsMapping (pos 3))
      (bench-MapsInside (pos 3)) none fresh fresh-Released

soem_shutdown-Released_example : Runs (soem_shutdown ⦃p = bench (pos 3)⦄ valid) running (λ _ t.
    Released t × (t.calls ≡ Call.close_port ∷ Call.write_state 0 EcState.init ∷ running.calls))
soem_shutdown-Released_example =
    soem_shutdown-Released ⦃p = bench (pos 3)⦄ (bench-KeepsMapping (pos 3)) running running-IsMapped

opens_and_closes :
    Runs
      (soem_initialize ⦃p = bench (pos 3)⦄ none >>= soem_shutdown ⦃p = bench (pos 3)⦄)
      fresh
      (λ _ t. Released t)
opens_and_closes =
    initialize_shutdown-Released ⦃p = bench (pos 3)⦄ (bench-KeepsMapping (pos 3))
      (bench-MapsInside (pos 3)) none fresh fresh-Released

soem_initialize-Started_example :
    Runs (soem_initialize ⦃p = bench (pos 3)⦄ (some "e0")) fresh (λ h t. (h ≡ valid) × Started t)
soem_initialize-Started_example =
    soem_initialize-Started ⦃p = bench (pos 3)⦄ (bench-KeepsMapping (pos 3))
      (bench-MapsInside (pos 3)) bench-Answers (some "e0") fresh fresh-Released
