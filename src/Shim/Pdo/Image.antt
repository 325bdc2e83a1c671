-- ===== src/Shim/Pdo/Image.antt =====
-- The 17 bytes that `soem_write_rxpdo` puts down, and what a drive finds in them.
use xeryon_ether_cat.Base.{
  ℕ, zero, suc, length-append, List, [], ◌∷◌, ◌++◌, some, ◌≡◌, refl, ◌∙◌, ap, ◌+◌, ◌*◌, ◌≤◌, ◌<◌,
  ◌^◌, arith, length, get_or, take, signed32, word32, IsInt32, signed32-word32, word32-lt,
}
use xeryon_ether_cat.Shim.{St}
use xeryon_ether_cat.Shim.Pdo.{DriveRxPdo, put_rxpdo, store, le_bytes, le_word32}
use xeryon_ether_cat.Shim.Pdo.Store.{get_or-append_right, store-inside, store-store}

-- A command that a caller can give: 32 bytes for `Command`, numbers in the ranges of their types.
pub record IsRxPdo (rx : DriveRxPdo) : Type 0 where
  pub command : length rx.command ≡ 32
  pub parameter : IsInt32 rx.parameter
  pub velocity : rx.velocity < 2 ^ 32
  pub acceleration : rx.acceleration < 2 ^ 16
  pub deceleration : rx.deceleration < 2 ^ 16
  pub execute : rx.execute < 256

-- What stands at `buf` once the command is staged: the first 4 of the 32 bytes of `Command`, which are
-- all that a drive gets of it, and each number whole.
pub record IsStaged (mem : ℕ → ℕ) (buf : ℕ) (rx : DriveRxPdo) : Type 0 where
  pub command : (k : ℕ) → k < 4 → mem (buf + k) ≡ get_or rx.command k 0
  pub parameter : signed32 (le_word32 (λ k. mem (buf + (4 + k)))) ≡ rx.parameter
  pub velocity : le_word32 (λ k. mem (buf + (8 + k))) ≡ rx.velocity
  pub acceleration : mem (buf + 12) + 256 * mem (buf + 13) ≡ rx.acceleration
  pub deceleration : mem (buf + 14) + 256 * mem (buf + 15) ≡ rx.deceleration
  pub execute : mem (buf + 16) ≡ rx.execute

-- The 17 bytes that the copies put down.
abbrev pub rx_tail : DriveRxPdo → List ℕ
rx_tail rx =
    le_bytes 4 (word32 rx.parameter)
    ++ (le_bytes 4 rx.velocity
        ++ (le_bytes 2 rx.acceleration ++ (le_bytes 2 rx.deceleration ++ rx.execute ∷ [])))

abbrev pub rx_image : DriveRxPdo → List ℕ
rx_image rx = take 4 rx.command ++ rx_tail rx

pub length-take_four : (xs : List ℕ) → length xs ≡ 32 → length (take 4 xs) ≡ 4
length-take_four [] h = absurd (omega arith)
length-take_four (a ∷ []) h = absurd (omega arith)
length-take_four (a ∷ b ∷ []) h = absurd (omega arith)
length-take_four (a ∷ b ∷ c ∷ []) h = absurd (omega arith)
length-take_four (a ∷ b ∷ c ∷ d ∷ xs) h = refl

-- The six copies, one behind the other, are one copy of the image.
store-rx_image :
    (mem : ℕ → ℕ) (buf : ℕ) (rx : DriveRxPdo)
    → length (take 4 rx.command) ≡ 4
    → store
        (store
          (store
            (store
              (store
                (store mem buf (take 4 rx.command))
                (buf + 4)
                (le_bytes 4 (word32 rx.parameter)))
              (buf + 8)
              (le_bytes 4 rx.velocity))
            (buf + 12)
            (le_bytes 2 rx.acceleration))
          (buf + 14)
          (le_bytes 2 rx.deceleration))
        (buf + 16)
        (rx.execute ∷ [])
      ≡ store mem buf (rx_image rx)
store-rx_image mem buf rx four =
    rw
      (
        store-store _ (buf + 14) (le_bytes 2 rx.deceleration) (rx.execute ∷ []) (buf + 16)
            (omega arith),
        store-store _ (buf + 12) (le_bytes 2 rx.acceleration) _ (buf + 14) (omega arith),
        store-store _ (buf + 8) (le_bytes 4 rx.velocity) _ (buf + 12) (omega arith),
        store-store _ (buf + 4) (le_bytes 4 (word32 rx.parameter)) _ (buf + 8) (omega arith),
        store-store mem buf (take 4 rx.command) _ (buf + 4) (omega arith),
      )
      refl

-- With room for them, the copies go through and put down the image.
pub put_rxpdo-rx_image :
    {X : Type 0} (s : St X) (buf : ℕ) (rx : DriveRxPdo)
    → IsRxPdo rx
    → buf + 20 ≤ s.iomap.size
    → put_rxpdo buf rx s
      ≡ some
          (tt, record s { iomap = record s.iomap { byte = store s.iomap.byte buf (rx_image rx) } })
unfolding put_rxpdo
put_rxpdo-rx_image s buf rx h room =
    let four = length-take_four rx.command h.command in
    ground (arith, four, store-rx_image s.iomap.byte buf rx four)

get_or-take_four :
    (xs ys : List ℕ) (k : ℕ) → length xs ≡ 32 → k < 4 → get_or (take 4 xs ++ ys) k 0 ≡ get_or xs k 0
get_or-take_four [] ys k h lt = absurd (omega arith)
get_or-take_four (a ∷ []) ys k h lt = absurd (omega arith)
get_or-take_four (a ∷ b ∷ []) ys k h lt = absurd (omega arith)
get_or-take_four (a ∷ b ∷ c ∷ []) ys k h lt = absurd (omega arith)
get_or-take_four (a ∷ b ∷ c ∷ d ∷ xs) ys zero h lt = refl
get_or-take_four (a ∷ b ∷ c ∷ d ∷ xs) ys (suc zero) h lt = refl
get_or-take_four (a ∷ b ∷ c ∷ d ∷ xs) ys (suc (suc zero)) h lt = refl
get_or-take_four (a ∷ b ∷ c ∷ d ∷ xs) ys (suc (suc (suc zero))) h lt = refl
get_or-take_four (a ∷ b ∷ c ∷ d ∷ xs) ys (suc (suc (suc (suc k)))) h lt = absurd (omega arith)

module _ (mem : ℕ → ℕ) (buf : ℕ) (rx : DriveRxPdo) (h : IsRxPdo rx) where
  -- The bytes behind the command.
  tail_byte :
      (k : ℕ) → k < 13 → store mem buf (rx_image rx) (buf + (4 + k)) ≡ get_or (rx_tail rx) k 0
  tail_byte k lt =
      let four = length-take_four rx.command h.command in
      store-inside mem buf (rx_image rx) (4 + k)
        (omega (arith, four, length-append {0} (take 4 rx.command) (rx_tail rx)))
      ∙ get_or-append_right (take 4 rx.command) (rx_tail rx) 4 k 0 four

  parameter_word :
      le_word32 (λ k. store mem buf (rx_image rx) (buf + (4 + k))) ≡ word32 rx.parameter
  parameter_word = omega (
    arith,
    word32-lt rx.parameter h.parameter,
    tail_byte 0 (omega arith),
    tail_byte 1 (omega arith),
    tail_byte 2 (omega arith),
    tail_byte 3 (omega arith),
  )

  pub rx_image-IsStaged : IsStaged (store mem buf (rx_image rx)) buf rx
  rx_image-IsStaged = record {
    command = λ k lt.
        store-inside mem buf (rx_image rx) k (
          omega (
            arith,
            length-take_four rx.command h.command,
            length-append {0} (take 4 rx.command) (rx_tail rx),
          ))
        ∙ get_or-take_four rx.command (rx_tail rx) k h.command lt;
    parameter = ap signed32 (parameter_word) ∙ signed32-word32 rx.parameter h.parameter;
    velocity = omega (
      arith,
      tail_byte 4 (omega arith),
      tail_byte 5 (omega arith),
      tail_byte 6 (omega arith),
      tail_byte 7 (omega arith),
    );
    acceleration = omega (arith, tail_byte 8 (omega arith), tail_byte 9 (omega arith));
    deceleration = omega (arith, tail_byte 10 (omega arith), tail_byte 11 (omega arith));
    execute = tail_byte 12 (omega arith);
  }

pub length-rx_image : (rx : DriveRxPdo) → IsRxPdo rx → length (rx_image rx) ≡ 17
length-rx_image rx h = omega (
  arith,
  length-take_four rx.command h.command,
  length-append {0} (take 4 rx.command) (rx_tail rx),
)
