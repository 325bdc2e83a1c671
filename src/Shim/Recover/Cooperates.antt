-- ===== src/Shim/Recover/Cooperates.antt =====
-- A bus whose slaves answer, and what calls of SOEM do to the states of its entries.
use xeryon_ether_cat.Base.{
  ℕ, ℤ, pos_part, ◌≡◌, ◌∙◌, sym, ap, ◌+◌, ◌≤◌, ◌<◌, ◌≤ℤ◌, ◌⊎◌, inl, inr, arith, Bool-cases, ◌==◌,
}
use xeryon_ether_cat.Soem.{Context, Net, Platform}
use xeryon_ether_cat.Soem.EcState
use xeryon_ether_cat.Shim.{St, net_of, set_state}
use xeryon_ether_cat.Shim.Mapped.{IsMapped}
use xeryon_ether_cat.Shim.Runs.{Stays, Stays-trans, same-Stays}
use xeryon_ether_cat.Shim.Recover.Verify.{AllOp}

-- The steps of the EtherCAT state machine that recovery takes a slave through: to INIT from any
-- state, and up from there one by one.
abbrev pub NextState : ℕ → ℕ → Type 0
NextState was st =
    (st ≡ EcState.init)
    ⊎ ((was ≡ EcState.init) × (st ≡ EcState.pre_op))
    ⊎ ((was ≡ EcState.pre_op) × (st ≡ EcState.safe_op))
    ⊎ ((was ≡ EcState.safe_op) × (st ≡ EcState.operational))

-- Every slave that was found is OPERATIONAL by its entry.
abbrev pub AllUp : Context → Type 0
AllUp c =
    (j : ℕ)
    → (j < 1) ⊎ (pos_part c.slavecount + 1 ≤ j) ⊎ ((c.slavelist j).state ≡ EcState.operational)

-- What is found of slave `i`, in the state `st` that it was asked for.
abbrev pub asked : {X : Type 0} (p : Platform X) → ℕ → ℕ → ℤ → Net X → ℕ × Net X
asked p i st t n =
    p.ecx_statecheck i st t (p.ecx_writestate i (record n { context = set_state i st n.context }))

-- A bus whose slaves answer. A slave that is asked for the next state is found in it; a wait for a
-- slave's state refreshes no other entry. When all slaves are OPERATIONAL, so is their group, and a
-- cycle comes back with the working counter that is expected.
pub record Cooperates {X : Type 0} (p : Platform X) (expected : ℤ) : Type 0 where
  pub reaches :
      (i st : ℕ) (t : ℤ) (n : Net X)
      → 1 ≤ i
      → NextState (n.context.slavelist i).state st
      → ((asked p i st t n).0 ≡ st) × (((asked p i st t n).1.context.slavelist i).state ≡ st)
  pub statecheck :
      (i want : ℕ) (t : ℤ) (n : Net X) (j : ℕ)
      → (j ≡ i)
        ⊎ (((p.ecx_statecheck i want t n).1.context.slavelist j).state
            ≡ (n.context.slavelist j).state)
  pub usleep :
      (us : ℕ) (n : Net X) (j : ℕ)
      → ((p.osal_usleep us n).context.slavelist j).state ≡ (n.context.slavelist j).state
  pub group :
      (t : ℤ) (n : Net X)
      → AllUp n.context
      → (p.ecx_statecheck 0 EcState.operational t n).0 ≡ EcState.operational
  pub wkc : (t : ℤ) (n : Net X) → AllUp n.context → expected ≤ℤ (p.ecx_receive_processdata t n).0

module _ {X : Type 0} where
  abbrev pub state_at : St X → ℕ → ℕ
  state_at s j = (s.handle.context.slavelist j).state

  -- From `s` to `t` no state of an entry changes but that of `i`.
  abbrev pub Touches : ℕ → St X → St X → Type 0
  Touches i s t = Stays s t × ((j : ℕ) → (j ≡ i) ⊎ (state_at t j ≡ state_at s j))

  pub Touches-trans : {i : ℕ} {s t u : St X} → Touches i s t → Touches i t u → Touches i s u
  Touches-trans a b = (
    Stays-trans a.0 b.0,
    λ j. elim (b.1 j) [
      | inl e ↦ inl e
      | inr e ↦ elim (a.1 j) [ inl d ↦ inl d | inr d ↦ inr (e ∙ d) ]
    ],
  )

  pub log-Touches :
      (i : ℕ) (s t : St X)
      → t.allocated ≡ s.allocated
      → t.handle.context ≡ s.handle.context
      → t.iomap.size ≡ s.iomap.size
      → t.port_open ≡ s.port_open
      → IsMapped s
      → Touches i s t
  log-Touches i s t live context size port m =
      (same-Stays s t live context size port m, λ j. inr (ap (λ c. (c.slavelist j).state) context))

  -- A call that gave `r`, whose context differs from that of `s` in the entry `i` at most.
  pub call-Touches :
      {A : Type 0} (i : ℕ) (r : A × Net X) (a : A) (s t : St X)
      → Stays s t
      → r ≡ (a, net_of t)
      → ((j : ℕ) → (j ≡ i) ⊎ ((r.1.context.slavelist j).state ≡ state_at s j))
      → Touches i s t
  call-Touches i r a s t stays e same = (
    stays,
    λ j. elim (same j) [
      | inl here ↦ inl here
      | inr there ↦ inr (sym (ap (λ q. (q.1.context.slavelist j).state) e) ∙ there)
    ],
  )

  -- Slave `i` has come up, behind the slaves below it.
  pub AllOp-step :
      (i : ℕ) (s t : St X)
      → Touches i s t
      → state_at t i ≡ EcState.operational
      → AllOp i s
      → AllOp (i + 1) t
  AllOp-step i s t touched up below = λ j. elim (Bool-cases (j == i)) [
    | inl here ↦ let e : j ≡ i = ground (arith, here) in inr (inr (rw e up))
    | inr there ↦ elim (touched.1 j) [
      | inl e ↦ absurd (ground (arith, there, e))
      | inr same ↦ elim (below j) [
        | inl none ↦ inl none
        | inr (inl behind) ↦ inr (inl (ground (arith, there, behind)))
        | inr (inr op) ↦ inr (inr (same ∙ op))
      ]
    ]
  ]
