-- ===== src/Service/Formatter/Laws.antt =====
-- The mask and the bytes, against the image of a state on the wire.
use xeryon_ether_cat.Base.{
  ℕ, suc, List, [], ◌∷◌, ◌++◌, ◌≡◌, refl, ◌∙◌, ap, ◌+◌, ◌*◌, ◌/◌, ◌%◌, ◌^◌, ◌<◌, arith, ◌==◌,
  if◌then◌else◌, Bool-cases, inl, inr, word32,
}
use native.Mathlib.Nat.{div-eq_of_lt, two-pow-succ, mul-add, add-mul}
use xeryon_ether_cat.Shim.Pdo.{DriveTxPdo, le_bytes}
use xeryon_ether_cat.Shim.Pdo.Codec.{tx_image, IsTxPdo, IsBit, status0, status1, status2}
use xeryon_ether_cat.Service.Formatter.{
  set_bit, set_flags, or_flags, flags0, flags1, flags2, to_bit_mask, drive_tx_pdo_to_bytes,
}

-- The number that bits make, the low one first.
abbrev number : List ℕ → ℕ
number [] = 0
number (b ∷ bs) = b + 2 * number bs

abbrev AreBits : List ℕ → Type 0
AreBits [] = Unit
AreBits (b ∷ bs) = IsBit b × AreBits bs

-- A bit above all that are set.
set_bit_lem : (k value : ℕ) → value < 2 ^ k → set_bit k value ≡ value + 2 ^ k
set_bit_lem k value h = let e : value / 2 ^ k ≡ 0 = div-eq_of_lt h in ground (arith, e)

-- The rest of the flags, from a state of the mask in which the bits from `k` on are not set.
step_lem : (w n : ℕ) → w * (1 + 2 * n) ≡ w + (w + w) * n
step_lem w n = grind (arith, mul-add, add-mul)

skip_lem : (w n : ℕ) → w * (0 + 2 * n) ≡ (w + w) * n
skip_lem w n = grind (arith, mul-add, add-mul)

set_flags_lem :
    (k value : ℕ) (flags : List ℕ)
    → AreBits flags
    → value < 2 ^ k
    → set_flags k value flags ≡ value + 2 ^ k * number flags
unfolding set_flags
set_flags_lem k value [] bits h = ground arith
set_flags_lem k value (flag ∷ flags) bits h =
    let w : ℕ = 2 ^ k in
    let twice : 2 ^ suc k ≡ w + w = two-pow-succ k in
    elim (Bool-cases (flag == 0)) [
      | inl off ↦
          let rest = set_flags_lem (suc k) value flags bits.1 (omega (arith, twice)) in
          let zero_flag : flag ≡ 0 = ground (arith, off) in
          let skip = skip_lem w (number flags) in
          let same = ap (λ t. t * number flags) twice in
          let here = ap (λ f. w * (f + 2 * number flags)) zero_flag in
          let this : (if flag == 0 then value else set_bit k value) ≡ value = ground (arith, off) in
          let there = ap (λ v. set_flags (suc k) v flags) this in
          omega (arith, there, rest, skip, same, here)
      | inr on ↦
          let up : set_bit k value ≡ value + w = set_bit_lem k value h in
          let rest = set_flags_lem (suc k) (value + w) flags bits.1 (omega (arith, twice)) in
          let one_flag : flag ≡ 1 = ground (arith, on) in
          let step = step_lem w (number flags) in
          let same = ap (λ t. t * number flags) twice in
          let here = ap (λ f. w * (f + 2 * number flags)) one_flag in
          let this : (if flag == 0 then value else set_bit k value) ≡ value + w =
            ground (arith, on, up) in
          let there = ap (λ v. set_flags (suc k) v flags) this in
          omega (arith, there, rest, step, same, here)
    ]

or_flags-set_flags :
    (k value : ℕ) (flags : List ℕ)
    → AreBits flags
    → or_flags k value flags ≡ set_flags k value flags
unfolding or_flags set_flags
or_flags-set_flags k value [] bits = refl
or_flags-set_flags k value (flag ∷ flags) bits =
    let same : (if flag % 2 == 0 then value else set_bit k value)
        ≡ (if flag == 0 then value else set_bit k value) =
      ground arith in
    or_flags-set_flags (suc k) (if flag % 2 == 0 then value else set_bit k value) flags bits.1
    ∙ ap (λ v. set_flags (suc k) v flags) same

-- The bits that a byte of flags makes.
byte_lem : (flags : List ℕ) → AreBits flags → or_flags 0 0 flags ≡ number flags
byte_lem flags bits =
    or_flags-set_flags 0 0 flags bits ∙ set_flags_lem 0 0 flags bits (omega arith) ∙ omega arith

-- For a state that a drive can report, the mask holds the three status bytes that were on the wire,
-- the first one lowest, and the bytes are the eight that were on the wire.
pub drive_tx_pdo_to_bytes-tx_image :
    (t : DriveTxPdo)
    → IsTxPdo t
    → (to_bit_mask t ≡ status0 t + 256 * status1 t + 65536 * status2 t)
      × (drive_tx_pdo_to_bytes t ≡ tx_image t)
unfolding to_bit_mask drive_tx_pdo_to_bytes
drive_tx_pdo_to_bytes-tx_image t h =
    let (a0, a1, a2, a3, a4, a5, a6, a7) = h.first in
    let (b0, b1, b2, b3, b4, b5, b6, b7) = h.second in
    let (c0, c1, c2, c3, c4, c5) = h.third in
    let first : AreBits (flags0 t) = (a0, (a1, (a2, (a3, (a4, (a5, (a6, (a7, tt)))))))) in
    let second : AreBits (flags1 t) = (b0, (b1, (b2, (b3, (b4, (b5, (b6, (b7, tt)))))))) in
    let third : AreBits (flags2 t) = (c0, (c1, (c2, (c3, (c4, (c5, tt)))))) in
    let all : AreBits (flags0 t ++ (flags1 t ++ flags2 t)) = (
      a0,
      (
        a1,
        (
          a2,
          (
            a3,
            (
              a4,
              (
                a5,
                (
                  a6,
                  (
                    a7,
                    (
                      b0,
                      (
                        b1,
                        (b2, (b3, (b4, (b5, (b6, (b7, (c0, (c1, (c2, (c3, (c4, (c5, tt)))))))))))),
                      ),
                    ),
                  ),
                ),
              ),
            ),
          ),
        ),
      ),
    ) in
    let e0 : or_flags 0 0 (flags0 t) ≡ status0 t = byte_lem (flags0 t) first ∙ omega arith in
    let e1 : or_flags 0 0 (flags1 t) ≡ status1 t = byte_lem (flags1 t) second ∙ omega arith in
    let e2 : or_flags 0 0 (flags2 t) ≡ status2 t = byte_lem (flags2 t) third ∙ omega arith in
    (
      set_flags_lem 0 0 (flags0 t ++ (flags1 t ++ flags2 t)) all (omega arith) ∙ omega arith,
      λ i. le_bytes 4 (word32 t.actual_position) ++ e0 i ∷ e1 i ∷ e2 i ∷ t.slot ∷ [],
    )
