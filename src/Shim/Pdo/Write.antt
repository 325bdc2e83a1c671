-- ===== src/Shim/Pdo/Write.antt =====
-- `soem_write_rxpdo`: every branch, and what it leaves alone.
use xeryon_ether_cat.Base.{
  ℕ, ℤ, pos, List, some, ◌≡◌, ◌+◌, ◌≤◌, ◌<◌, ◌^◌, ◌⊎◌, inl, inr, ◌≤ℤ◌, arith, Option-cases,
  Bool-cases, ltb_ℤ, signed32, pos_part, take, refl, ap, word32, [], ◌∷◌,
}
use xeryon_ether_cat.Soem.{Platform}
use xeryon_ether_cat.Shim.{St, LogLine, Pointer, null, valid, err, ◌>>◌}
use xeryon_ether_cat.Shim.Log.{log_after}
use xeryon_ether_cat.Shim.Mapped.{IsMapped}
use xeryon_ether_cat.Shim.Pdo.{
  DriveRxPdo, soem_write_rxpdo, put_rxpdo, put_bytes, le_bytes, store, io_rx_bytes, out_of_range,
}
use xeryon_ether_cat.Shim.Pdo.Store.{store-outside}
use xeryon_ether_cat.Shim.Pdo.Image.{
  IsRxPdo, IsStaged, rx_image, put_rxpdo-rx_image, rx_image-IsStaged, length-rx_image,
}

-- The call has a slave to write to: its number is that of a slave found, and its outputs are
-- mapped and have twenty bytes at least (as a C `int`).
pub record Writable {X : Type 0} (s : St X) (i : ℤ) (buf : ℕ) : Type 0 where
  pub above : pos 1 ≤ℤ i
  pub below : i ≤ℤ s.handle.context.slavecount
  pub mapped : (s.handle.context.slavelist (pos_part i)).outputs ≡ some buf
  pub enough : io_rx_bytes ≤ (s.handle.context.slavelist (pos_part i)).obytes
  pub small : (s.handle.context.slavelist (pos_part i)).obytes < 2 ^ 31

-- The state with other bytes in the IO map.
abbrev pub with_bytes : {X : Type 0} → St X → (ℕ → ℕ) → St X
with_bytes s mem = record s { iomap = record s.iomap { byte = mem } }

module _ {X : Type 0} ⦃p : Platform X⦄ where
  -- The image of the command is stored at the slave's outputs.
  pub soem_write_rxpdo-rx_image :
      (s : St X) (i : ℤ) (rx : DriveRxPdo) (buf : ℕ)
      → IsMapped s
      → Writable s i buf
      → IsRxPdo rx
      → soem_write_rxpdo valid i (some rx) s
        ≡ some (pos 1, with_bytes s (store s.iomap.byte buf (rx_image rx)))
  unfolding soem_write_rxpdo
  soem_write_rxpdo-rx_image s i rx buf m w h =
      let inside = rw w.mapped at (m.outs (pos_part i)) in
      ground (arith, w.mapped, inside, put_rxpdo-rx_image s buf rx h)

  -- For a slave that can be written to, the call returns 1, the first four bytes of `Command` and all
  -- the numbers of the command can be read back from its outputs, and nothing of the state changes
  -- but the first 17 bytes there.
  pub soem_write_rxpdo-IsStaged :
      (s : St X) (i : ℤ) (rx : DriveRxPdo) (buf : ℕ)
      → IsMapped s
      → Writable s i buf
      → IsRxPdo rx
      → (mem : ℕ → ℕ) × (soem_write_rxpdo valid i (some rx) s ≡ some (pos 1, with_bytes s mem))
        × IsStaged mem buf rx
        × ((a : ℕ) → (mem a ≡ s.iomap.byte a) ⊎ ((buf ≤ a) × (a < buf + 17)))
  soem_write_rxpdo-IsStaged s i rx buf m w h = (
    store s.iomap.byte buf (rx_image rx),
    soem_write_rxpdo-rx_image s i rx buf m w h,
    rx_image-IsStaged s.iomap.byte buf rx h,
    λ a. ground (arith, length-rx_image rx h, store-outside s.iomap.byte buf (rx_image rx) a),
  )

  put_rxpdo_cut :
      (buf : ℕ) (rx : DriveRxPdo) (other : List ℕ) (s : St X)
      → take 4 other ≡ take 4 rx.command
      → put_rxpdo buf (record rx { command = other }) s ≡ put_rxpdo buf rx s
  unfolding put_rxpdo
  put_rxpdo_cut buf rx other s same =
      ap
        (λ letters.
          (do
            put_bytes buf letters
            put_bytes (buf + 4) (le_bytes 4 (word32 rx.parameter))
            put_bytes (buf + 8) (le_bytes 4 rx.velocity)
            put_bytes (buf + 12) (le_bytes 2 rx.acceleration)
            put_bytes (buf + 14) (le_bytes 2 rx.deceleration)
            put_bytes (buf + 16) (rx.execute ∷ []))
            s)
        same

  -- A longer keyword is cut: whatever the slave and the state are, a command whose `Command` agrees
  -- with that of another in its first four bytes, and that has the same numbers, does what that one
  -- does.
  pub soem_write_rxpdo_cut :
      (h : Pointer) (i : ℤ) (rx : DriveRxPdo) (other : List ℕ) (s : St X)
      → take 4 other ≡ take 4 rx.command
      → soem_write_rxpdo h i (some (record rx { command = other })) s
        ≡ soem_write_rxpdo h i (some rx) s
  unfolding soem_write_rxpdo
  soem_write_rxpdo_cut null i rx other s same = refl
  soem_write_rxpdo_cut valid i rx other s same =
      elim (Option-cases (s.handle.context.slavelist (pos_part i)).outputs) [
        | inl null_outputs ↦ ground (arith, null_outputs)
        | inr (buf, e) ↦ ground (arith, e, put_rxpdo_cut buf rx other s same)
      ]

  -- Either the slave can be written to, and the call returns 1 and stores the command's image at its
  -- outputs; or it cannot, and the call returns 0 and does nothing but log.
  pub soem_write_rxpdo_cases :
      (s : St X) (i : ℤ) (rx : DriveRxPdo)
      → IsMapped s
      → IsRxPdo rx
      → ((buf : ℕ) × Writable s i buf
          × (soem_write_rxpdo valid i (some rx) s
              ≡ some (pos 1, with_bytes s (store s.iomap.byte buf (rx_image rx)))))
        ⊎ ((lines : List LogLine) × ((buf : ℕ) → ¬ Writable s i buf)
            × (soem_write_rxpdo valid i (some rx) s ≡ some (pos 0, record s { log = lines })))
  unfolding soem_write_rxpdo
  soem_write_rxpdo_cases s i rx m h = elim (Bool-cases (out_of_range i s.handle.context)) [
    | inl out ↦ inr (s.log, λ buf r. ground (arith, r.above, r.below), ground (arith, m.live))
    | inr within ↦ elim (Option-cases (s.handle.context.slavelist (pos_part i)).outputs) [
      | inl null_outputs ↦
          inr (s.log, λ buf r. ground (arith, r.mapped), ground (arith, m.live, m.few))
      | inr (buf, e) ↦
          elim (Bool-cases
            (ltb_ℤ (signed32 (s.handle.context.slavelist (pos_part i)).obytes) (pos io_rx_bytes))) [
              | inl small ↦ inr (
                log_after err "soem_write_rxpdo: slave %d Obytes too small (%d < %d)" s,
                λ buf r. ground (arith, r.enough, r.small),
                ground (arith, m.live, m.few),
              )
              | inr enough ↦
                  let w : Writable s i buf = ground arith in
                  inl (buf, w, soem_write_rxpdo-rx_image s i rx buf m w h)
            ]
    ]
  ]
