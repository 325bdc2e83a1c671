-- ===== src/Tests/Api.antt =====
-- Callers of the shims on the bench.
use xeryon_ether_cat.Base.{ℤ, pos, some, List, [], ◌∷◌, ◌≡◌, refl, ◌⊎◌, inr, length, arith}
use xeryon_ether_cat.Shim.{St, valid}
use xeryon_ether_cat.Shim.Runs.{Runs, Stays}
use xeryon_ether_cat.Shim.Init.Resources.{Released, Started}
use xeryon_ether_cat.Shim.Api.{Api, System, windows, linux, api_of}
use xeryon_ether_cat.Shim.Api.Session.{Request, write, recover, count, perform}
use xeryon_ether_cat.Shim.Api.Sound.{api_of-Stays}
use xeryon_ether_cat.Shim.Api.Lives.{Reach, here, next, call, IsLegal, life}
use xeryon_ether_cat.Shim.Api.Callers.{api_of-IsLegal, api_of-progress, api_of-Released}
use xeryon_ether_cat.Tests.Bench.{
  bench, fresh, fresh-Released, running, running-IsMapped, bench-KeepsMapping, bench-MapsInside,
}
use xeryon_ether_cat.Tests.Pdo.{move, move-IsRxPdo}

abbrev shim : System → Api (Unit {0})
shim os = api_of ⦃p = bench (pos 3)⦄ os

-- A command has been staged, and then the bus is recovered.
written : Runs (perform (shim windows) (write (pos 1) move)) running (λ _ t. Stays running t)
written =
    api_of-Stays ⦃p = bench (pos 3)⦄ (bench-KeepsMapping (pos 3)) windows (write (pos 1) move)
      running move-IsRxPdo running-IsMapped

recovered : Runs (perform (shim windows) (recover (pos 100))) written.1 (λ _ t. Stays written.1 t)
recovered =
    api_of-Stays ⦃p = bench (pos 3)⦄ (bench-KeepsMapping (pos 3)) windows (recover (pos 100))
      written.1 (omega arith) written.3.mapped

running-Started : Started running
running-Started = record {
  mapped = running-IsMapped;
  size = refl;
  port_open = refl;
  counted = omega arith;
}

both : Reach (shim windows) running recovered.1
both =
    next (next here (call (write (pos 1) move) written.0 move-IsRxPdo refl written.2))
      (call (recover (pos 100)) recovered.0 (omega arith) written.3.mapped.live recovered.2)

api_of-Stays_example :
    Runs (perform (shim linux) (recover (pos 100))) running (λ _ t. Stays running t)
api_of-Stays_example =
    api_of-Stays ⦃p = bench (pos 3)⦄ (bench-KeepsMapping (pos 3)) linux (recover (pos 100)) running
      (omega arith) running-IsMapped

api_of-IsLegal_example : IsLegal (shim windows) recovered.1
api_of-IsLegal_example =
    api_of-IsLegal ⦃p = bench (pos 3)⦄ (bench-KeepsMapping (pos 3)) (bench-MapsInside (pos 3))
      windows (inr running-Started) both

api_of-progress_example :
    ((rc : ℤ) × (u : St (Unit {0})) × (perform (shim windows) count recovered.1 ≡ some (rc, u)))
    × ((u : St (Unit {0})) × ((shim windows).soem_shutdown valid recovered.1 ≡ some (tt, u))
        × Released u)
api_of-progress_example =
    api_of-progress ⦃p = bench (pos 3)⦄ (bench-KeepsMapping (pos 3)) (bench-MapsInside (pos 3))
      windows count (inr running-Started) both recovered.3.mapped.live tt

abbrev three_calls : List Request
three_calls = write (pos 1) move ∷ recover (pos 100) ∷ count ∷ []

api_of-Released_example :
    Runs
      (life (shim linux) (some "e0") three_calls)
      fresh
      (λ rcs t. Released t × ((rcs ≡ []) ⊎ (length rcs ≡ 3)))
api_of-Released_example =
    api_of-Released ⦃p = bench (pos 3)⦄ (bench-KeepsMapping (pos 3)) (bench-MapsInside (pos 3))
      linux (some "e0") three_calls fresh (move-IsRxPdo, (omega arith, (tt, tt))) fresh-Released
