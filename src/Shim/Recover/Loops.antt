-- ===== src/Shim/Recover/Loops.antt =====
-- The rule for the loops over the slaves.
use mathlib.Core.Path.{subst}
use xeryon_ether_cat.Base.{
  ℕ, zero, suc, ℤ, pos, pos_part, ◌≡◌, ◌+◌, ◌≤◌, ◌<◌, ◌≤ℤ◌, arith, true, Bool-cases, leb_ℤ, inl,
  inr,
}
use xeryon_ether_cat.Shim.{St, M}
use xeryon_ether_cat.Shim.Runs.{Runs, Runs->>=}
use xeryon_ether_cat.Shim.Recover.{for_slaves}

module _ {X A : Type 0} (body : ℕ → A → M X A) (count : ℤ) (Inv : ℕ → A → St X → Type 0) where
  -- An invariant that holds at `i`, of a live handle whose number of slaves is `count`, and that
  -- every round for a slave carries on to the next one, holds behind the last slave.
  pub for_slaves-Runs :
      ((i : ℕ) (a : A) (s : St X)
        → Inv i a s
        → (s.allocated ≡ true) × (s.handle.context.slavecount ≡ count))
      → ((i : ℕ) (a : A) (s : St X)
          → 1 ≤ i
          → pos i ≤ℤ count
          → Inv i a s
          → Runs (body i a) s (Inv (i + 1)))
      → (fuel i : ℕ) (a : A) (s : St X) → pos_part count + 1 < fuel + i
      → 1 ≤ i
      → i ≤ pos_part count + 1
      → Inv i a s
      → Runs (for_slaves fuel i a body) s (Inv (pos_part count + 1))
  unfolding for_slaves
  for_slaves-Runs live round zero i a s enough one last inv = absurd (omega arith)
  for_slaves-Runs live round (suc fuel) i a s enough one last inv =
      let (alive, slaves) = live i a s inv in
      elim (Bool-cases (leb_ℤ (pos i) count)) [
        | inl more ↦
            let le : i ≤ pos_part count = ground arith in
            let upto : pos i ≤ℤ count = ground arith in
            let (b, t, e, r) =
              Runs->>= (body i a) (λ next. for_slaves fuel (i + 1) next body) s
                (round i a s one upto inv)
                (λ next s' q.
                  for_slaves-Runs live round fuel (i + 1) next s' (omega arith) (omega arith)
                    (omega arith) q) in
            (b, t, ground (arith, alive, slaves, e), r)
        | inr done ↦
            let behind : i ≡ pos_part count + 1 = ground arith in
            (a, s, ground (arith, alive, slaves), subst (λ j. Inv j a s) behind inv)
      ]
