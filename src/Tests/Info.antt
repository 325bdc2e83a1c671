-- ===== src/Tests/Info.antt =====
-- Reports of the bench.
use xeryon_ether_cat.Shim.Runs.{Runs}
use xeryon_ether_cat.Shim.Info.Drain.{soem_drain_error_list-terminated}
use xeryon_ether_cat.Base.{
  ℕ, pos, some, List, [], ◌∷◌, ◌≡◌, refl, arith, length, get_or, ltb, if◌then◌else◌, ◌<◌, ◌≤◌, ◌⊎◌,
  ◌+◌,
}
use xeryon_ether_cat.Shim.{St, Call, valid, net_of, after_call}
use xeryon_ether_cat.Shim.Exchange.{expected_wkc}
use xeryon_ether_cat.Shim.Info.{
  SlaveInfo, slave_info, Health, soem_scan_slaves, soem_get_health, soem_drain_error_list,
}
use xeryon_ether_cat.Shim.Info.Report.{
  scanned, Counted, soem_scan_slaves-fills, soem_get_health-Counted,
}
use xeryon_ether_cat.Soem.{Slave}
use xeryon_ether_cat.Shim.Info.Names.{text, slave_info-name}
use xeryon_ether_cat.Tests.Bench.{drive, bench, waiting, waiting-IsMapped, bench-KeepsMapping}

abbrev no_info : SlaveInfo
no_info = record { position = 0; vendor_id = 0; product_code = 0; revision = 0; name = [] }

abbrev no_health : Health
no_health = record {
  slaves_found = pos 0;
  group_expected_wkc = pos 0;
  last_wkc = pos 0;
  bytes_out = pos 0;
  bytes_in = pos 0;
  slaves_op = 0;
  al_status_code = 0;
}

soem_scan_slaves-fills_example :
    let count : ℕ = if ltb 2 1 then 2 else 1 in
    (out : List SlaveInfo) × (soem_scan_slaves valid (some (no_info ∷ no_info ∷ [])) (pos 2) waiting
      ≡ some ((pos count, some out), waiting))
    × (length out ≡ length (no_info ∷ no_info ∷ []))
    × ((k : ℕ) (old : SlaveInfo)
        → get_or out k old
          ≡ (if ltb k count then scanned waiting k else get_or (no_info ∷ no_info ∷ []) k old))
soem_scan_slaves-fills_example =
    soem_scan_slaves-fills (no_info ∷ no_info ∷ []) 2 1 waiting waiting-IsMapped refl (omega arith)
      (omega arith)

soem_get_health-Counted_example :
    let t : St (Unit {0}) = after_call Call.read_state waiting (net_of waiting) in
    (h : Health) × (soem_get_health ⦃p = bench (pos 3)⦄ valid (some no_health) waiting
      ≡ some ((pos 1, some h), t))
    × (h.slaves_found ≡ pos 1)
    × (h.last_wkc ≡ waiting.handle.last_wkc)
    × (h.group_expected_wkc ≡ expected_wkc waiting.handle.context.group)
    × Counted 1 1 t h.slaves_op
soem_get_health-Counted_example =
    soem_get_health-Counted ⦃p = bench (pos 3)⦄ (bench-KeepsMapping (pos 3)) no_health 1 waiting
      waiting-IsMapped refl

abbrev room_for_two : List ℕ
room_for_two = 7 ∷ 7 ∷ 7 ∷ []

abbrev bench_error : List ℕ
bench_error = b'E' ∷ b'r' ∷ b'r' ∷ []

soem_drain_error_list-terminated_example :
    Runs
      (soem_drain_error_list ⦃p = bench (pos 3)⦄ valid (some room_for_two) (pos 3))
      waiting
      (λ r t.
        (out : List ℕ) × (n : ℕ) × (r ≡ (pos 1, some out))
        × (length out ≡ length room_for_two)
        × (n < 3)
        × (get_or out n 1 ≡ 0)
        × ((n ≡ length bench_error) ⊎ ((n < length bench_error) × (n + 1 ≡ 3)))
        × ((k : ℕ) → (n ≤ k) ⊎ (get_or out k 0 ≡ get_or bench_error k 0)))
soem_drain_error_list-terminated_example =
    soem_drain_error_list-terminated ⦃p = bench (pos 3)⦄ room_for_two 3 waiting waiting-IsMapped
      (omega arith) (omega arith)

-- "Xer" with a NUL and a leftover behind it.
abbrev named_drive : Slave
named_drive = record drive { name = b'X' ∷ b'e' ∷ b'r' ∷ 0 ∷ b'y' ∷ [] }

slave_info-name_example :
    (length (slave_info 1 named_drive).name ≡ 41)
    × (text (slave_info 1 named_drive).name ≡ b'X' ∷ b'e' ∷ b'r' ∷ [])
slave_info-name_example = slave_info-name 1 named_drive
