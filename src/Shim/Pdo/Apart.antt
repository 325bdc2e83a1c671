-- ===== src/Shim/Pdo/Apart.antt =====
-- Commands staged for slaves whose outputs lie apart.
use xeryon_ether_cat.Base.{ℕ, ℤ, pos, some, ◌≡◌, ◌∙◌, ◌+◌, ◌≤◌, ◌<◌, ◌⊎◌, arith, ap, signed32}
use xeryon_ether_cat.Soem.{Platform}
use xeryon_ether_cat.Shim.{St, valid}
use xeryon_ether_cat.Shim.Mapped.{IsMapped}
use xeryon_ether_cat.Shim.Pdo.{DriveRxPdo, soem_write_rxpdo}
use xeryon_ether_cat.Shim.Pdo.Image.{IsRxPdo, IsStaged}
use xeryon_ether_cat.Shim.Pdo.Write.{Writable, with_bytes, soem_write_rxpdo-IsStaged}

-- Only the first 17 bytes count.
pub IsStaged-ext :
    (mem mem' : ℕ → ℕ) (buf : ℕ) (rx : DriveRxPdo)
    → ((k : ℕ) → k < 17 → mem' (buf + k) ≡ mem (buf + k))
    → IsStaged mem buf rx
    → IsStaged mem' buf rx
IsStaged-ext mem mem' buf rx same st = record {
  command = λ k below. same k (omega arith) ∙ st.command k below;
  parameter =
      ap signed32 (
        omega (
          arith,
          same 4 (omega arith),
          same 5 (omega arith),
          same 6 (omega arith),
          same 7 (omega arith),
        ))
      ∙ st.parameter;
  velocity = omega (
    arith,
    st.velocity,
    same 8 (omega arith),
    same 9 (omega arith),
    same 10 (omega arith),
    same 11 (omega arith),
  );
  acceleration = omega (arith, st.acceleration, same 12 (omega arith), same 13 (omega arith));
  deceleration = omega (arith, st.deceleration, same 14 (omega arith), same 15 (omega arith));
  execute = same 16 (omega arith) ∙ st.execute;
}

module _ {X : Type 0} ⦃p : Platform X⦄ where
  -- A command that is staged for one slave stays staged when another slave, whose 17 bytes lie
  -- apart, gets one, and that one is staged too.
  pub soem_write_rxpdo-apart :
      (s : St X) (i : ℤ) (rx other : DriveRxPdo) (buf at : ℕ)
      → IsMapped s
      → Writable s i buf
      → IsRxPdo rx
      → IsStaged s.iomap.byte at other
      → (at + 17 ≤ buf) ⊎ (buf + 17 ≤ at)
      → (mem : ℕ → ℕ) × (soem_write_rxpdo valid i (some rx) s ≡ some (pos 1, with_bytes s mem))
        × IsStaged mem buf rx
        × IsStaged mem at other
  soem_write_rxpdo-apart s i rx other buf at m w h staged apart =
      let (mem, e, new, rest) = soem_write_rxpdo-IsStaged s i rx buf m w h in
      (
        mem,
        e,
        new,
        IsStaged-ext s.iomap.byte mem at other (λ k below. ground (arith, rest (at + k))) staged,
      )
