-- ===== src/Shim/Pdo/Whole.antt =====
-- Whatever eight bytes a drive sends, they are read as a state, and nothing of them is lost but two
-- bits.
use xeryon_ether_cat.Base.{
  ℕ, zero, suc, ◌%◌, ◌^◌, ◌<◌, ◌≡◌, refl, arith, IsInt32, word32, signed32, word32-signed32, get_or,
  ◌==◌, if◌then◌else◌, ◌⊎◌, inl, inr,
}
use xeryon_ether_cat.Shim.Pdo.{unpack_txpdo, le_word32, bit_of}
use xeryon_ether_cat.Shim.Pdo.Codec.{tx_image, IsTxPdo, IsBit, byte_of, bit_of_lem}

bit_of-IsBit : (b k : ℕ) → IsBit (bit_of b k)
bit_of-IsBit b k = omega (arith, bit_of_lem b k)

signed32-IsInt32 : (w : ℕ) → w < 2 ^ 32 → IsInt32 (signed32 w)
signed32-IsInt32 w h = ground arith

-- The low `n` bits of a byte, which are all of it for 8.
low_six :
    (b : ℕ)
    → byte_of (bit_of b 0) (bit_of b 1) (bit_of b 2) (bit_of b 3) (bit_of b 4) (bit_of b 5) 0 0
      ≡ b % 64
low_six b = omega (
  arith,
  bit_of_lem b 0,
  bit_of_lem b 1,
  bit_of_lem b 2,
  bit_of_lem b 3,
  bit_of_lem b 4,
  bit_of_lem b 5,
)

all_eight :
    (b : ℕ)
    → b < 256
    → byte_of
        (bit_of b 0)
        (bit_of b 1)
        (bit_of b 2)
        (bit_of b 3)
        (bit_of b 4)
        (bit_of b 5)
        (bit_of b 6)
        (bit_of b 7)
      ≡ b
all_eight b h = omega (arith, low_six b, bit_of_lem b 6, bit_of_lem b 7)

le_word32-lt : (mem : ℕ → ℕ) → ((k : ℕ) → k < 8 → mem k < 256) → le_word32 mem < 2 ^ 32
le_word32-lt mem bytes = omega (
  arith,
  bytes 0 (omega arith),
  bytes 1 (omega arith),
  bytes 2 (omega arith),
  bytes 3 (omega arith),
)

unpack_txpdo-IsTxPdo : (mem : ℕ → ℕ) → ((k : ℕ) → k < 8 → mem k < 256) → IsTxPdo (unpack_txpdo mem)
unfolding unpack_txpdo
unpack_txpdo-IsTxPdo mem bytes =
    let bits : (b k : ℕ) → IsBit (bit_of b k) = bit_of-IsBit in
    record {
      actual_position = signed32-IsInt32 (le_word32 mem) (le_word32-lt mem bytes);
      first = (
        bits (mem 4) 0,
        bits (mem 4) 1,
        bits (mem 4) 2,
        bits (mem 4) 3,
        bits (mem 4) 4,
        bits (mem 4) 5,
        bits (mem 4) 6,
        bits (mem 4) 7,
      );
      second = (
        bits (mem 5) 0,
        bits (mem 5) 1,
        bits (mem 5) 2,
        bits (mem 5) 3,
        bits (mem 5) 4,
        bits (mem 5) 5,
        bits (mem 5) 6,
        bits (mem 5) 7,
      );
      third = (
        bits (mem 6) 0,
        bits (mem 6) 1,
        bits (mem 6) 2,
        bits (mem 6) 3,
        bits (mem 6) 4,
        bits (mem 6) 5,
      );
      slot = bytes 7 (omega arith);
    }

-- Whatever eight bytes a drive sends, the state that is read from them is a proper one, and its
-- image is those bytes, but for the two high bits of byte 6, which are zero in it.
pub tx_image-unpack_txpdo :
    (mem : ℕ → ℕ)
    → ((k : ℕ) → k < 8 → mem k < 256)
    → IsTxPdo (unpack_txpdo mem)
      × ((k : ℕ)
          → (7 < k)
            ⊎ (get_or (tx_image (unpack_txpdo mem)) k 0 ≡ (if k == 6 then mem 6 % 64 else mem k)))
unfolding unpack_txpdo
tx_image-unpack_txpdo mem bytes =
    let word : word32 (signed32 (le_word32 mem)) ≡ le_word32 mem =
      word32-signed32 (le_word32 mem) (le_word32-lt mem bytes) in
    let b0 = bytes 0 (omega arith) in
    let b1 = bytes 1 (omega arith) in
    let b2 = bytes 2 (omega arith) in
    let b3 = bytes 3 (omega arith) in
    (
      unpack_txpdo-IsTxPdo mem bytes,
      λ k.
          elim k
            as (λ k.
              (7 < k)
              ⊎ (get_or (tx_image (unpack_txpdo mem)) k 0
                  ≡ (if k == 6 then mem 6 % 64 else mem k))) [
                    | zero ↦ inr (omega (arith, word, b0, b1, b2, b3))
                    | suc zero ↦ inr (omega (arith, word, b0, b1, b2, b3))
                    | suc (suc zero) ↦ inr (omega (arith, word, b0, b1, b2, b3))
                    | suc (suc (suc zero)) ↦ inr (omega (arith, word, b0, b1, b2, b3))
                    | suc (suc (suc (suc zero))) ↦ inr (all_eight (mem 4) (bytes 4 (omega arith)))
                    | suc (suc (suc (suc (suc zero)))) ↦
                        inr (all_eight (mem 5) (bytes 5 (omega arith)))
                    | suc (suc (suc (suc (suc (suc zero))))) ↦ inr (low_six (mem 6))
                    | suc (suc (suc (suc (suc (suc (suc zero)))))) ↦ inr refl
                    | suc (suc (suc (suc (suc (suc (suc (suc k))))))) ↦ inl (omega arith)
                  ],
    )
