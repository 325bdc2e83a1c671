-- ===== src/Shim/Staging/Layout.antt =====
-- Lemmas on what is shown in the IO map, and what a staged command leaves alone.
use mathlib.Core.Path.{subst}
use xeryon_ether_cat.Base.{
  ℕ, suc, ℤ, pos_part, true, false, Option, none, some, Option-cases, Bool-cases, ◌≡◌, refl, sym,
  ◌+◌, ◌-◌, ◌≤◌, ◌<◌, ◌⊎◌, inl, inr, arith, ◌==◌, ==_iff,
}
use xeryon_ether_cat.Soem.{Context}
use xeryon_ether_cat.Soem.Mapping.{SameMapping}
use xeryon_ether_cat.Shim.{St}
use xeryon_ether_cat.Shim.Pdo.{DriveRxPdo}
use xeryon_ether_cat.Shim.Pdo.Image.{IsStaged}
use xeryon_ether_cat.Shim.Pdo.Apart.{IsStaged-ext}
use xeryon_ether_cat.Shim.Pdo.Write.{Writable, with_bytes}
use xeryon_ether_cat.Shim.Staging.{Commands, accepts, command, Shown, Shows, Apart, IsLaidOut}

-- Where none of the 17 bytes changes, the command is still shown.
pub Shown-same :
    (cmd : Option DriveRxPdo) (at : Option ℕ) (mem mem' : ℕ → ℕ)
    → ((buf : ℕ) → at ≡ some buf → (k : ℕ) → k < 17 → mem' (buf + k) ≡ mem (buf + k))
    → Shown cmd at mem
    → Shown cmd at mem'
Shown-same none at mem mem' same shown = tt
Shown-same (some rx) none mem mem' same shown = shown
Shown-same (some rx) (some buf) mem mem' same shown =
    IsStaged-ext mem mem' buf rx (same buf refl) shown

pub Apart-some :
    (o o' : Option ℕ) (n a b : ℕ)
    → o ≡ some a
    → o' ≡ some b
    → Apart o o' n
    → (a + 17 ≤ b) ⊎ (b + n ≤ a)
Apart-some o o' n a b e e' h = rw (e, e') at h

pub accepts-same : (c d : Context) (i : ℤ) → SameMapping c d → accepts c i ≡ accepts d i
accepts-same c d i same =
    rw (same.slavecount, (same.slaves (pos_part i)).outputs, (same.slaves (pos_part i)).obytes)

pub IsLaidOut-same : (c d : Context) → SameMapping c d → IsLaidOut d → IsLaidOut c
IsLaidOut-same c d same laid = record {
  apart = λ i j. rw ((same.slaves (suc i)).outputs, (same.slaves (suc j)).outputs) (laid.apart i j);
  separate = λ i. rw ((same.slaves (suc i)).outputs, same.group) (laid.separate i);
}

module _ {X : Type 0} where
  -- A slave takes a command if and only if it can be written to.
  pub accepts-Writable :
      (s : St X) (i : ℤ) (buf : ℕ) → Writable s i buf → accepts s.handle.context i ≡ true
  accepts-Writable s i buf w = ground (arith, w.above, w.below, w.mapped, w.enough, w.small)

  pub Writable-accepts :
      (s : St X) (i : ℤ) → accepts s.handle.context i ≡ true → (buf : ℕ) × Writable s i buf
  Writable-accepts s i yes_taken =
      elim (Option-cases (s.handle.context.slavelist (pos_part i)).outputs) [
        | inl null_outputs ↦ absurd (ground (arith, null_outputs))
        | inr (buf, e) ↦ (
          buf,
          record {
            above = ground (arith, e);
            below = ground (arith, e);
            mapped = e;
            enough = ground (arith, e);
            small = ground (arith, e);
          },
        )
      ]

  -- The outputs of another slave keep their bytes.
  elsewhere :
      (s : St X) (i : ℤ) (buf at j : ℕ) (mem : ℕ → ℕ)
      → IsLaidOut s.handle.context
      → Writable s i buf
      → (pos_part i == suc j) ≡ false
      → (s.handle.context.slavelist (suc j)).outputs ≡ some at
      → ((a : ℕ) → (mem a ≡ s.iomap.byte a) ⊎ ((buf ≤ a) × (a < buf + 17)))
      → (k : ℕ) → k < 17
      → mem (at + k) ≡ s.iomap.byte (at + k)
  elsewhere s i buf at j mem laid w other e rest k below =
      let before : pos_part i ≡ suc (pos_part i - 1) = omega (arith, w.above) in
      let mine : (s.handle.context.slavelist (suc (pos_part i - 1))).outputs ≡ some buf =
        subst (λ n. (s.handle.context.slavelist n).outputs ≡ some buf) before w.mapped in
      elim (laid.apart (pos_part i - 1) j) [
        | inl same ↦ absurd (ground (arith, before, same, other))
        | inr apart ↦
            let disjoint = Apart-some _ _ 17 buf at mine e apart in
            ground (arith, rest (at + k), disjoint)
      ]

  -- A command is staged at its slave's outputs, and the other slaves' commands are still shown.
  pub staged-Shows :
      (s : St X) (i : ℤ) (rx : DriveRxPdo) (buf : ℕ) (mem : ℕ → ℕ) (commands : Commands)
      → IsLaidOut s.handle.context
      → Writable s i buf
      → IsStaged mem buf rx
      → ((a : ℕ) → (mem a ≡ s.iomap.byte a) ⊎ ((buf ≤ a) × (a < buf + 17)))
      → Shows commands s
      → Shows (command (pos_part i) rx commands) (with_bytes s mem)
  staged-Shows s i rx buf mem commands laid w new rest shows = record {
    shown = λ j. elim (Bool-cases (pos_part i == suc j)) [
      | inl here ↦
          let at : (s.handle.context.slavelist (suc j)).outputs ≡ some buf =
            subst (λ k. (s.handle.context.slavelist k).outputs ≡ some buf) ((==_iff _ _).0 here)
              w.mapped in
          let cmd : command (pos_part i) rx commands (suc j) ≡ some rx = ground (arith, here) in
          subst (λ c. Shown c (s.handle.context.slavelist (suc j)).outputs mem) (sym cmd)
            (subst (λ o. Shown (some rx) o mem) (sym at) new)
      | inr there ↦
          let cmd : command (pos_part i) rx commands (suc j) ≡ commands (suc j) =
            ground (arith, there) in
          subst (λ c. Shown c (s.handle.context.slavelist (suc j)).outputs mem) (sym cmd)
            (Shown-same (commands (suc j)) (s.handle.context.slavelist (suc j)).outputs s.iomap.byte
              mem (λ at e k below. elsewhere s i buf at j mem laid w there e rest k below)
              (shows.shown j))
    ];
  }
