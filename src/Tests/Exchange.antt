-- ===== src/Tests/Exchange.antt =====
-- Cycles on the bench.
use xeryon_ether_cat.Base.{
  ℕ, ℤ, pos, List, [], ◌∷◌, length, get_or, some, none, ◌≡◌, ◌⊎◌, ◌≤◌, ◌<◌, ◌+◌, arith, refl,
  Option, if◌then◌else◌, ltb, ltb_ℤ, ◌&&◌,
}
use xeryon_ether_cat.Shim.{St, valid}
use xeryon_ether_cat.Shim.Runs.{Stays}
use xeryon_ether_cat.Shim.Pdo.Write.{with_bytes}
use xeryon_ether_cat.Shim.Exchange.{prepare_outputs, copy_inputs, soem_exchange_process_data}
use xeryon_ether_cat.Shim.Exchange.Buffers.{prepare_outputs_image, copy_inputs_image}
use xeryon_ether_cat.Shim.Exchange.Cycle.{Cycle, soem_exchange_process_data-codes}
use xeryon_ether_cat.Tests.Bench.{bench, running, running-IsMapped, bench-KeepsMapping}

abbrev four : List ℕ
four = 9 ∷ 8 ∷ 7 ∷ 6 ∷ []

prepare_outputs_image_example :
    (mem : ℕ → ℕ) × (prepare_outputs (some four) (pos 4) running
      ≡ some (tt, with_bytes running mem))
    × ((k : ℕ) → (20 ≤ k) ⊎ (mem (0 + k) ≡ (if ltb k 4 then get_or four k 0 else 0)))
    × ((a : ℕ) → (mem a ≡ running.iomap.byte a) ⊎ ((0 ≤ a) × (a < 0 + 20)))
prepare_outputs_image_example =
    prepare_outputs_image running four 4 0 running-IsMapped refl (omega arith) (ground arith)
      (omega arith) (omega arith)

copy_inputs_image_example :
    (out : List ℕ) × (copy_inputs (some four) (pos 4) running ≡ some (some out, running))
    × (length out ≡ length four)
    × ((k : ℕ)
        → get_or out k 0
          ≡ (if ltb k 4 && ltb k 8 then running.iomap.byte (20 + k) else get_or four k 0))
copy_inputs_image_example =
    copy_inputs_image running four 4 20 running-IsMapped refl (omega arith) (ground arith)
      (omega arith) (omega arith)

soem_exchange_process_data-codes_example :
    let t : ℤ = if ltb_ℤ (pos 2000) (pos 0) then pos 0 else pos 2000 in
    (mem : ℕ → ℕ) × (rc : ℤ) × (out : Option (List ℕ)) × (s' : St (Unit {0})) × (prepare_outputs
        (some four)
        (pos 4)
        running
      ≡ some (tt, with_bytes running mem))
    × (soem_exchange_process_data ⦃p = bench (pos 2)⦄ valid
          (some four)
          (pos 4)
          none
          (pos 0)
          (pos 2000)
          running
        ≡ some ((rc, out), s'))
    × Stays running s'
    × Cycle ⦃p = bench (pos 2)⦄ none t (with_bytes running mem) rc out s'
soem_exchange_process_data-codes_example =
    soem_exchange_process_data-codes ⦃p = bench (pos 2)⦄ (some four) none (pos 4) (pos 0) (pos 2000)
      running (bench-KeepsMapping (pos 2)) running-IsMapped (omega arith) tt
