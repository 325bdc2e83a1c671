-- ===== src/Tests/Staging.antt =====
-- Commands staged for two drives on one bus.
use xeryon_ether_cat.Shim.Api.{linux, api_of}
use xeryon_ether_cat.Service.Act.{Does, ◌>>=◌}
use xeryon_ether_cat.Service.Client.{soem_client}
use xeryon_ether_cat.Service.Axis.{Axis, new_axis}
use xeryon_ether_cat.Service.Loop.{stage_outputs}
use xeryon_ether_cat.Service.Loop.Staged.{Sends, stage_outputs-Sends}
use xeryon_ether_cat.Tests.Service.{to_thousand, to_thousand-IsCommand}
use xeryon_ether_cat.Base.{
  ℕ, zero, suc, pos, Option, none, some, List, [], ◌∷◌, ◌≡◌, refl, ◌⊎◌, inl, inr, arith,
}
use xeryon_ether_cat.Soem.{Context}
use xeryon_ether_cat.Soem.Mapping.{SameMapping}
use xeryon_ether_cat.Shim.{St}
use xeryon_ether_cat.Shim.Mapped.{IsMapped, Inside}
use xeryon_ether_cat.Shim.Runs.{Runs}
use xeryon_ether_cat.Shim.Staging.{
  Action, stage, cycle, commands_after, Shows, Apart, IsLaidOut, KeepsOutputs, act_all,
}
use xeryon_ether_cat.Shim.Staging.Refines.{act_all-Shows}
use xeryon_ether_cat.Shim.{valid}
use xeryon_ether_cat.Shim.Pdo.Image.{IsStaged}
use xeryon_ether_cat.Shim.Pdo.Write.{Writable}
use xeryon_ether_cat.Shim.Init.{nop, start_bus}
use xeryon_ether_cat.Shim.Init.Idle.{KeepsBytes, start_bus-IsStaged}
use xeryon_ether_cat.Tests.Bench.{bench, drive, one_drive, running, bench-KeepsMapping}
use xeryon_ether_cat.Tests.Pdo.{move, move-IsRxPdo}

-- The outputs of the drives 1 and 2.
abbrev place : ℕ → Option ℕ
place (suc zero) = some 0
place (suc (suc zero)) = some 20
place _ = none

abbrev two_drives : Context
two_drives = record one_drive {
  slavelist = λ i. record drive { outputs = place i; inputs = none };
  slavecount = pos 2;
  group = record one_drive.group { obytes = 40; inputs = some 40; ibytes = 16 };
}

abbrev pair : St (Unit {0})
pair = record running { handle = record running.handle { context = two_drives } }

outs_of_pair : (i : ℕ) → Inside (place i) 20 65536
outs_of_pair zero = tt
outs_of_pair (suc zero) = omega arith
outs_of_pair (suc (suc zero)) = omega arith
outs_of_pair (suc (suc (suc i))) = tt

pair-IsMapped : IsMapped pair
pair-IsMapped = record {
  live = refl;
  few = omega arith;
  outs = outs_of_pair;
  ins = λ i. tt;
  group_outs = omega arith;
  group_ins = omega arith;
}

disjoint_outs_of_pair : (i j : ℕ) → (i ≡ j) ⊎ Apart (place (suc i)) (place (suc j)) 17
disjoint_outs_of_pair zero zero = inl refl
disjoint_outs_of_pair zero (suc zero) = inr (inl (omega arith))
disjoint_outs_of_pair zero (suc (suc j)) = inr tt
disjoint_outs_of_pair (suc zero) zero = inr (inr (omega arith))
disjoint_outs_of_pair (suc zero) (suc zero) = inl refl
disjoint_outs_of_pair (suc zero) (suc (suc j)) = inr tt
disjoint_outs_of_pair (suc (suc i)) j = inr tt

separate_of_pair : (i : ℕ) → Apart (place (suc i)) (some 40) 16
separate_of_pair zero = inl (omega arith)
separate_of_pair (suc zero) = inl (omega arith)
separate_of_pair (suc (suc i)) = tt

two_drives-IsLaidOut : IsLaidOut two_drives
two_drives-IsLaidOut = record { apart = disjoint_outs_of_pair; separate = separate_of_pair }

bench-KeepsOutputs : KeepsOutputs (bench (pos 3))
bench-KeepsOutputs = record { send = λ n a. refl; receive = λ t n a. inl refl }

-- A move for each drive, one for a drive that is not there, and a cycle in between.
abbrev moves : List Action
moves =
    stage (pos 1) move
    ∷ cycle none (pos 0) (pos 2000)
    ∷ stage (pos 2) move
    ∷ stage (pos 3) move
    ∷ []

act_all-Shows_example : Runs (act_all ⦃p = bench (pos 3)⦄ moves) pair (λ _ t.
    IsMapped t
    × SameMapping t.handle.context two_drives
    × Shows (commands_after two_drives moves (λ j. none)) t)
act_all-Shows_example =
    act_all-Shows ⦃p = bench (pos 3)⦄ (bench-KeepsMapping (pos 3)) bench-KeepsOutputs moves
      (λ j. none) pair two_drives-IsLaidOut (move-IsRxPdo, (tt, (move-IsRxPdo, (move-IsRxPdo, tt))))
      pair-IsMapped (record { shown = λ j. tt })

bench-KeepsBytes : KeepsBytes (bench (pos 3))
bench-KeepsBytes = record { statecheck = λ i want t n a. refl; writestate = λ i n a. refl }

second-Writable : Writable pair (pos 2) 20
second-Writable = record {
  above = omega arith;
  below = omega arith;
  mapped = refl;
  enough = omega arith;
  small = omega arith;
}

start_bus-IsStaged_example :
    Runs (start_bus ⦃p = bench (pos 3)⦄) pair (λ h t. (h ≡ valid) × IsStaged t.iomap.byte 20 nop)
start_bus-IsStaged_example =
    start_bus-IsStaged ⦃p = bench (pos 3)⦄ (bench-KeepsMapping (pos 3)) bench-KeepsOutputs
      bench-KeepsBytes pair (pos 2) 20 pair-IsMapped two_drives-IsLaidOut second-Writable

-- An axis with the move, and one without a command.
abbrev one_moves : List Axis
one_moves = record new_axis { active = some to_thousand } ∷ new_axis ∷ []

stage_outputs-Sends_example :
    Does
      (do
        staged ← stage_outputs (soem_client (api_of ⦃p = bench (pos 3)⦄ linux)) valid 0 one_moves
        (soem_client (api_of ⦃p = bench (pos 3)⦄ linux)).exchange_process_data valid (pos 2000))
      pair
      (λ wkc t. IsMapped t × Sends one_moves two_drives t)
stage_outputs-Sends_example =
    stage_outputs-Sends ⦃p = bench (pos 3)⦄ (bench-KeepsMapping (pos 3)) bench-KeepsOutputs linux
      one_moves (pos 2000) pair two_drives-IsLaidOut (to_thousand-IsCommand, (tt, tt)) pair-IsMapped
