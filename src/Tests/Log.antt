-- ===== src/Tests/Log.antt =====
-- A line of the log on the bench.

use xeryon_ether_cat.Base.{pos, ◌∷◌, ◌+◌, ◌<◌, ◌≡◌, ◌⊎◌, refl, false, arith}
use xeryon_ether_cat.Shim.{warn}
use xeryon_ether_cat.Shim.Log.{log_after}
use xeryon_ether_cat.Shim.Log.Laws.{Formats, log_after_whole}
use xeryon_ether_cat.Tests.Bench.{bench, running}

-- Every text of the bench has 40 characters.
bench-Formats : Formats (bench (pos 3)) (λ bus fmt. fmt) (λ bus fmt. 40)
bench-Formats = record {
  measure = λ bus fmt n. refl;
  write = λ bus fmt n enough. ground (arith, enough);
}

log_after_whole_example :
    (log_after ⦃p = bench (pos 3)⦄ warn "WKC low" running
      ≡ record { level = warn; message = "WKC low" } ∷ running.log)
    ⊎ ((log_after ⦃p = bench (pos 3)⦄ warn "WKC low" running
          ≡ record { level = warn; message = "log_message: out of memory" } ∷ running.log)
        × (512 < 40 + 1)
        × ((bench (pos 3)).malloc running.bus (40 + 1) ≡ false))
log_after_whole_example =
    log_after_whole ⦃p = bench (pos 3)⦄ (λ bus fmt. fmt) (λ bus fmt. 40) warn "WKC low" running
      bench-Formats refl
