-- ===== src/Shim/Pdo/Calls.antt =====
-- Reading and staging leave a mapped bus mapped, whatever the slave.
use xeryon_ether_cat.Base.{ℤ, pos, some, refl, inl, inr}
use xeryon_ether_cat.Soem.{Platform}
use xeryon_ether_cat.Shim.{St, valid}
use xeryon_ether_cat.Shim.Mapped.{IsMapped}
use xeryon_ether_cat.Shim.Runs.{Runs, Stays, Stays-refl, same-Stays}
use xeryon_ether_cat.Shim.Pdo.{DriveRxPdo, DriveTxPdo, soem_write_rxpdo, soem_read_txpdo}
use xeryon_ether_cat.Shim.Pdo.Image.{IsRxPdo}
use xeryon_ether_cat.Shim.Pdo.Write.{soem_write_rxpdo_cases}
use xeryon_ether_cat.Shim.Pdo.Read.{soem_read_txpdo_cases}

module _ {X : Type 0} ⦃p : Platform X⦄ where
  pub write-Stays :
      (i : ℤ) (rx : DriveRxPdo) (s : St X)
      → IsRxPdo rx
      → IsMapped s
      → Runs (soem_write_rxpdo valid i (some rx)) s (λ _ t. Stays s t)
  write-Stays i rx s h m = elim (soem_write_rxpdo_cases s i rx m h) [
    | inl (buf, w, e) ↦ (pos 1, _, e, same-Stays s _ refl refl refl refl m)
    | inr (lines, unfit, e) ↦ (pos 0, _, e, same-Stays s _ refl refl refl refl m)
  ]

  pub read-Stays :
      (i : ℤ) (old : DriveTxPdo) (s : St X)
      → IsMapped s
      → Runs (soem_read_txpdo valid i (some old)) s (λ _ t. Stays s t)
  read-Stays i old s m = elim (soem_read_txpdo_cases s i old m) [
    | inl (buf, r, e) ↦ (_, s, e, Stays-refl s m)
    | inr (lines, unfit, e) ↦ (_, _, e, same-Stays s _ refl refl refl refl m)
  ]
