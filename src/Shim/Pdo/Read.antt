-- ===== src/Shim/Pdo/Read.antt =====
-- `soem_read_txpdo`: every branch, and that it gives back what the drive sent.
use xeryon_ether_cat.Base.{
  ℕ, ℤ, pos, List, some, ◌≡◌, ◌+◌, ◌≤◌, ◌<◌, ◌^◌, ◌∙◌, ◌⊎◌, inl, inr, ◌≤ℤ◌, arith, get_or,
  Option-cases, Bool-cases, ltb_ℤ, signed32, pos_part,
}
use xeryon_ether_cat.Soem.{Platform}
use xeryon_ether_cat.Shim.{St, LogLine, valid, err}
use xeryon_ether_cat.Shim.Log.{log_after}
use xeryon_ether_cat.Shim.Mapped.{IsMapped}
use xeryon_ether_cat.Shim.Pdo.{DriveTxPdo, unpack_txpdo, soem_read_txpdo, io_tx_bytes, out_of_range}
use xeryon_ether_cat.Shim.Pdo.Codec.{tx_image, IsTxPdo, unpack_txpdo-tx_image}

-- Only the first eight bytes matter.
unpack_txpdo_ext : (f g : ℕ → ℕ) → ((k : ℕ) → k < 8 → f k ≡ g k) → unpack_txpdo f ≡ unpack_txpdo g
unfolding unpack_txpdo
unpack_txpdo_ext f g h = simp (
  h 0 (omega arith),
  h 1 (omega arith),
  h 2 (omega arith),
  h 3 (omega arith),
  h 4 (omega arith),
  h 5 (omega arith),
  h 6 (omega arith),
  h 7 (omega arith),
)

-- The call has a slave to read: its number is that of a slave found, and its inputs are mapped
-- and have eight bytes at least (as a C `int`).
pub record Readable {X : Type 0} (s : St X) (i : ℤ) (buf : ℕ) : Type 0 where
  pub above : pos 1 ≤ℤ i
  pub below : i ≤ℤ s.handle.context.slavecount
  pub mapped : (s.handle.context.slavelist (pos_part i)).inputs ≡ some buf
  pub enough : io_tx_bytes ≤ (s.handle.context.slavelist (pos_part i)).ibytes
  pub small : (s.handle.context.slavelist (pos_part i)).ibytes < 2 ^ 31

module _ {X : Type 0} ⦃p : Platform X⦄ where
  -- If a slave that can be read has put the eight bytes of a state at its inputs, the call succeeds,
  -- gives back that state and changes nothing else.
  pub soem_read_txpdo-tx_image :
      (s : St X) (i : ℤ) (old tx : DriveTxPdo) (buf : ℕ)
      → IsMapped s
      → Readable s i buf
      → IsTxPdo tx
      → ((k : ℕ) → k < 8 → s.iomap.byte (buf + k) ≡ get_or (tx_image tx) k 0)
      → soem_read_txpdo valid i (some old) s ≡ some ((pos 1, some tx), s)
  unfolding soem_read_txpdo
  soem_read_txpdo-tx_image s i old tx buf m r t image =
      let read : unpack_txpdo (λ k. s.iomap.byte (buf + k)) ≡ tx =
        unpack_txpdo_ext _ _ image ∙ unpack_txpdo-tx_image tx t in
      let inside = rw r.mapped at (m.ins (pos_part i)) in ground (arith, read, inside, r.mapped)

  -- Either the slave can be read, and the call returns 1 and the state that its inputs hold; or it
  -- cannot, and the call returns 0, leaves the caller's state alone and does nothing but log.
  pub soem_read_txpdo_cases :
      (s : St X) (i : ℤ) (old : DriveTxPdo)
      → IsMapped s
      → ((buf : ℕ) × Readable s i buf
          × (soem_read_txpdo valid i (some old) s
              ≡ some ((pos 1, some (unpack_txpdo (λ k. s.iomap.byte (buf + k)))), s)))
        ⊎ ((lines : List LogLine) × ((buf : ℕ) → ¬ Readable s i buf)
            × (soem_read_txpdo valid i (some old) s
                ≡ some ((pos 0, some old), record s { log = lines })))
  unfolding soem_read_txpdo
  soem_read_txpdo_cases s i old m = elim (Bool-cases (out_of_range i s.handle.context)) [
    | inl out ↦ inr (s.log, λ buf r. ground (arith, r.above, r.below), ground (arith, m.live))
    | inr within ↦ elim (Option-cases (s.handle.context.slavelist (pos_part i)).inputs) [
      | inl null_inputs ↦
          inr (s.log, λ buf r. ground (arith, r.mapped), ground (arith, m.live, m.few))
      | inr (buf, e) ↦
          elim (Bool-cases
            (ltb_ℤ (signed32 (s.handle.context.slavelist (pos_part i)).ibytes) (pos io_tx_bytes))) [
              | inl small ↦ inr (
                log_after err "soem_read_txpdo: slave %d Ibytes too small (%d < %d)" s,
                λ buf r. ground (arith, r.enough, r.small),
                ground (arith, m.live, m.few),
              )
              | inr enough ↦
                  let inside = rw e at (m.ins (pos_part i)) in
                  inl (buf, ground arith, ground (arith, m.live, m.few))
            ]
    ]
  ]
