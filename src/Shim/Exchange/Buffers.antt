-- ===== src/Shim/Exchange/Buffers.antt =====
-- The buffers of `soem_exchange_process_data`: what goes out, and what the caller gets.
use xeryon_ether_cat.Base.{
  ℕ, not, inl, inr, Bool-cases, Option-cases, ltb_ℤ, ◌==◌, zero, suc, ℤ, pos, negsuc, drop, ◌&&◌,
  List, [], ◌∷◌, ◌++◌, Option, none, some, ◌≡◌, ◌≢◌, refl, ap, ◌+◌, ◌≤◌, ◌<◌, ◌^◌, ◌⊎◌, arith,
  length, get_or, take, replicate, ltb, pos_part, if◌then◌else◌,
}
use xeryon_ether_cat.Shim.{St}
use xeryon_ether_cat.Shim.Mapped.{IsMapped}
use xeryon_ether_cat.Shim.Pdo.{store}
use xeryon_ether_cat.Shim.Pdo.Store.{store-inside, store-outside}
use xeryon_ether_cat.Shim.Pdo.Write.{with_bytes}
use xeryon_ether_cat.Shim.Exchange.{prepare_outputs, copy_inputs, bytes_from, clamped_copy}

pub length-replicate : (n a : ℕ) → length (replicate n a) ≡ n
length-replicate zero a = refl
length-replicate (suc n) a = ap suc (length-replicate n a)

get_or-replicate : (n k a : ℕ) → get_or (replicate n a) k a ≡ a
get_or-replicate zero k a = refl
get_or-replicate (suc n) zero a = refl
get_or-replicate (suc n) (suc k) a = get_or-replicate n k a

length-take : (n : ℕ) (xs : List ℕ) → n ≤ length xs → length (take n xs) ≡ n
length-take zero xs h = refl
length-take (suc n) [] h = absurd (omega arith)
length-take (suc n) (x ∷ xs) h = omega (arith, length-take n xs (omega arith))

get_or-take : (n : ℕ) (xs : List ℕ) (k : ℕ) → k < n → get_or (take n xs) k 0 ≡ get_or xs k 0
get_or-take zero xs k h = absurd (omega arith)
get_or-take (suc n) [] k h = refl
get_or-take (suc n) (x ∷ xs) zero h = refl
get_or-take (suc n) (x ∷ xs) (suc k) h = get_or-take n xs k (omega arith)

module _ {X : Type 0} where
  -- With outputs to pass on, the group's part of the IO map is what the caller gave, as far as it
  -- goes and fits, and zero behind it; all other bytes stay.
  pub prepare_outputs_image :
      (s : St X) (outputs : List ℕ) (len at : ℕ)
      → IsMapped s
      → s.handle.context.group.outputs ≡ some at
      → s.handle.context.group.obytes < 2 ^ 31
      → s.handle.context.group.obytes ≢ 0
      → 0 < len
      → len ≤ length outputs
      → (mem : ℕ → ℕ) × (prepare_outputs (some outputs) (pos len) s ≡ some (tt, with_bytes s mem))
        × ((k : ℕ)
            → (s.handle.context.group.obytes ≤ k)
              ⊎ (mem (at + k) ≡ (if ltb k len then get_or outputs k 0 else 0)))
        × ((a : ℕ)
            → (mem a ≡ s.iomap.byte a) ⊎ ((at ≤ a) × (a < at + s.handle.context.group.obytes)))
  unfolding prepare_outputs
  prepare_outputs_image s outputs len at m e small some_bytes pos_len room =
      let n = s.handle.context.group.obytes in
      let zeros : List ℕ = replicate n 0 in
      let cleared : ℕ → ℕ = store s.iomap.byte at zeros in
      let count : ℕ = if ltb len n then len else n in
      let bytes : List ℕ = take count outputs in
      let inside = rw e at m.group_outs in
      let fits : count ≤ n = ground arith in
      let has : length bytes ≡ count = length-take count outputs (ground arith) in
      (
        store cleared at bytes,
        ground (arith, e, has, inside, length-replicate n 0),
        λ k. ground (
          arith,
          has,
          length-replicate n 0,
          store-inside cleared at bytes k,
          store-outside cleared at bytes (at + k),
          store-inside s.iomap.byte at zeros k,
          get_or-replicate n k 0,
          get_or-take count outputs k,
        ),
        λ a. ground (
          arith,
          has,
          length-replicate n 0,
          store-outside cleared at bytes a,
          store-outside s.iomap.byte at zeros a,
        ),
      )

length-bytes_from : (mem : ℕ → ℕ) (n : ℕ) → length (bytes_from mem n) ≡ n
length-bytes_from mem zero = refl
length-bytes_from mem (suc n) = ap suc (length-bytes_from (λ k. mem (suc k)) n)

length-overlay :
    (mem : ℕ → ℕ) (n : ℕ) (xs : List ℕ)
    → n ≤ length xs
    → length (bytes_from mem n ++ drop n xs) ≡ length xs
length-overlay mem zero xs h = refl
length-overlay mem (suc n) [] h = absurd (omega arith)
length-overlay mem (suc n) (x ∷ xs) h =
    ap suc (length-overlay (λ k. mem (suc k)) n xs (omega arith))

get_or-overlay :
    (mem : ℕ → ℕ) (n : ℕ) (xs : List ℕ) (k : ℕ)
    → n ≤ length xs
    → get_or (bytes_from mem n ++ drop n xs) k 0 ≡ (if ltb k n then mem k else get_or xs k 0)
get_or-overlay mem zero xs k h = ground arith
get_or-overlay mem (suc n) [] k h = absurd (omega arith)
get_or-overlay mem (suc n) (x ∷ xs) zero h = ground arith
get_or-overlay mem (suc n) (x ∷ xs) (suc k) h =
    ground (arith, get_or-overlay (λ j. mem (suc j)) n xs k (omega arith))

-- A caller's buffer has the bytes that it is passed with.
abbrev pub Fits : Option (List ℕ) → ℤ → Type 0
Fits none len = Unit
Fits (some buf) len = pos_part len ≤ length buf

module _ {X : Type 0} where
  -- The caller's buffer gets the group's inputs, as far as both go, and keeps its length and what
  -- stands behind them; nothing else changes.
  pub copy_inputs_image :
      (s : St X) (inputs : List ℕ) (len at : ℕ)
      → IsMapped s
      → s.handle.context.group.inputs ≡ some at
      → s.handle.context.group.ibytes < 2 ^ 31
      → s.handle.context.group.ibytes ≢ 0
      → 0 < len
      → len ≤ length inputs
      → (out : List ℕ) × (copy_inputs (some inputs) (pos len) s ≡ some (some out, s))
        × (length out ≡ length inputs)
        × ((k : ℕ)
            → get_or out k 0 ≡ (
                if ltb k len && ltb k s.handle.context.group.ibytes
                then s.iomap.byte (at + k)
                else get_or inputs k 0))
  unfolding copy_inputs
  copy_inputs_image s inputs len at m e small some_bytes pos_len room =
      let n = s.handle.context.group.ibytes in
      let count : ℕ = if ltb len n then len else n in
      let inside = rw e at m.group_ins in
      let mem : ℕ → ℕ = λ k. s.iomap.byte (at + k) in
      let fits : count ≤ length inputs = ground arith in
      (
        bytes_from mem count ++ drop count inputs,
        ground (arith, e, inside),
        length-overlay mem count inputs fits,
        λ k. ground (arith, get_or-overlay mem count inputs k fits),
      )

  pub copy_inputs_total :
      (s : St X) (inputs : Option (List ℕ)) (len : ℤ)
      → IsMapped s
      → Fits inputs len
      → (out : Option (List ℕ)) × (copy_inputs inputs len s ≡ some (out, s))
  unfolding copy_inputs
  copy_inputs_total s none len m h = (none, refl)
  copy_inputs_total s (some inputs) (negsuc len) m h = (some inputs, ground (arith, m.live))
  copy_inputs_total s (some inputs) (pos len) m h =
      let n = s.handle.context.group.ibytes in
      let copy : ℤ = clamped_copy (pos len) n in
      elim (Bool-cases (ltb_ℤ (pos 0) (pos len) && not (n == 0) && ltb_ℤ (pos 0) copy)) [
        | inr nothing ↦ (some inputs, ground (arith, m.live))
        | inl some_bytes ↦ elim (Option-cases s.handle.context.group.inputs) [
          | inl e ↦ let empty = rw e at m.group_ins in absurd (ground arith)
          | inr (at, e) ↦
              let inside = rw e at m.group_ins in
              let mem : ℕ → ℕ = λ k. s.iomap.byte (at + k) in
              (
                some (bytes_from mem (pos_part copy) ++ drop (pos_part copy) inputs),
                ground (arith, e, inside, m.live),
              )
        ]
      ]

  -- With a buffer of the length that is passed, the outputs can be prepared, and only bytes of the
  -- IO map change.
  pub prepare_outputs_total :
      (s : St X) (outputs : Option (List ℕ)) (len : ℤ)
      → IsMapped s
      → Fits outputs len
      → (mem : ℕ → ℕ) × (prepare_outputs outputs len s ≡ some (tt, with_bytes s mem))
  unfolding prepare_outputs
  prepare_outputs_total s none len m h = (s.iomap.byte, refl)
  prepare_outputs_total s (some outputs) (negsuc len) m h = (s.iomap.byte, ground (arith, m.live))
  prepare_outputs_total s (some outputs) (pos len) m h =
      let n = s.handle.context.group.obytes in
      let copy : ℤ = clamped_copy (pos len) n in
      elim (Bool-cases (not (n == 0) && ltb_ℤ (pos 0) (pos len))) [
        | inr nothing ↦ (s.iomap.byte, ground (arith, m.live))
        | inl some_bytes ↦ elim (Option-cases s.handle.context.group.outputs) [
          | inl e ↦ let empty = rw e at m.group_outs in absurd (ground arith)
          | inr (at, e) ↦
              let inside = rw e at m.group_outs in
              let cleared : ℕ → ℕ = store s.iomap.byte at (replicate n 0) in
              elim (Bool-cases (ltb_ℤ (pos 0) copy)) [
                | inr no_copy ↦ (cleared, ground (arith, e, inside, m.live, length-replicate n 0))
                | inl copies ↦ (
                  store cleared at (take (pos_part copy) outputs),
                  ground (
                    arith,
                    e,
                    inside,
                    m.live,
                    length-replicate n 0,
                    length-take (pos_part copy) outputs,
                  ),
                )
              ]
        ]
      ]

  -- Without outputs from the caller, nothing is prepared.
  pub prepare_none :
      (mem : ℕ → ℕ) (s : St X)
      → prepare_outputs none (pos 0) s ≡ some (tt, with_bytes s mem)
      → mem ≡ s.iomap.byte
  unfolding prepare_outputs
  prepare_none mem s e = cc
