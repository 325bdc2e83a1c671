-- ===== src/Shim/Info/Drain.antt =====
-- The text that `soem_drain_error_list` leaves in the caller's buffer.
use xeryon_ether_cat.Base.{
  ℕ, zero, suc, pos, none, some, Option, Option-cases, List, [], ◌∷◌, ◌++◌, ◌≡◌, refl, ap, ◌+◌, ◌-◌,
  ◌≤◌, ◌<◌, ◌⊎◌, inl, inr, arith, ltb, if◌then◌else◌, length, get_or, take, drop,
}
use xeryon_ether_cat.Soem.{Platform}
use xeryon_ether_cat.Shim.{St, Call, valid, net_of, after_call, err}
use xeryon_ether_cat.Shim.Log.{log_after}
use xeryon_ether_cat.Shim.Mapped.{IsMapped}
use xeryon_ether_cat.Shim.Runs.{Runs}
use xeryon_ether_cat.Shim.Info.{soem_drain_error_list, copy_error}

-- The caller's buffer behind a text of `n` characters and its NUL.
abbrev terminated : ℕ → List ℕ → List ℕ → List ℕ
terminated n error buf = take n error ++ 0 ∷ drop (suc n) buf

length-terminated :
    (n : ℕ) (error buf : List ℕ)
    → n ≤ length error
    → n + 1 ≤ length buf
    → length (terminated n error buf) ≡ length buf
length-terminated zero error [] h room = absurd (omega arith)
length-terminated zero error (b ∷ buf) h room = refl
length-terminated (suc n) [] buf h room = absurd (omega arith)
length-terminated (suc n) (e ∷ error) [] h room = absurd (omega arith)
length-terminated (suc n) (e ∷ error) (b ∷ buf) h room =
    ap suc (length-terminated n error buf (omega arith) (omega arith))

terminated-nul :
    (n : ℕ) (error rest : List ℕ) → n ≤ length error → get_or (take n error ++ 0 ∷ rest) n 1 ≡ 0
terminated-nul zero error rest h = refl
terminated-nul (suc n) [] rest h = absurd (omega arith)
terminated-nul (suc n) (e ∷ error) rest h = terminated-nul n error rest (omega arith)

terminated-text :
    (n : ℕ) (error rest : List ℕ) (k : ℕ)
    → n ≤ length error
    → k < n
    → get_or (take n error ++ 0 ∷ rest) k 0 ≡ get_or error k 0
terminated-text zero error rest k h below = absurd (omega arith)
terminated-text (suc n) [] rest k h below = absurd (omega arith)
terminated-text (suc n) (e ∷ error) rest zero h below = refl
terminated-text (suc n) (e ∷ error) rest (suc k) h below =
    terminated-text n error rest k (omega arith) (omega arith)

-- The text of the errors: none is an empty one.
abbrev pub error_text : Option (List ℕ) → List ℕ
error_text none = []
error_text (some error) = error

module _ {X : Type 0} ⦃p : Platform X⦄ where
  -- On a mapped bus, with a buffer of `size` bytes, the call returns 1 and leaves the buffer's
  -- length as it is and a text in it that ends by a NUL inside those bytes: the whole text of the
  -- errors, or the first `size - 1` characters of a longer one.
  pub soem_drain_error_list-terminated :
      (buf : List ℕ) (size : ℕ) (s : St X)
      → IsMapped s
      → 0 < size
      → size ≤ length buf
      → let error : List ℕ = error_text (p.ecx_elist2string (net_of s)).0 in
        Runs (soem_drain_error_list valid (some buf) (pos size)) s (λ r t.
          (out : List ℕ) × (n : ℕ) × (r ≡ (pos 1, some out))
          × (length out ≡ length buf)
          × (n < size)
          × (get_or out n 1 ≡ 0)
          × ((n ≡ length error) ⊎ ((n < length error) × (n + 1 ≡ size)))
          × ((k : ℕ) → (n ≤ k) ⊎ (get_or out k 0 ≡ get_or error k 0)))
  unfolding soem_drain_error_list copy_error
  soem_drain_error_list-terminated buf size s m some_room room =
      let s1 : St X = after_call Call.error_list s (p.ecx_elist2string (net_of s)).1 in
      elim (Option-cases (p.ecx_elist2string (net_of s)).0) [
        | inl no_text ↦ (
          (pos 1, some (0 ∷ drop 1 buf)),
          record s1 { log = log_after err "No error string available.\n" s1 },
          ground (arith, m.live, no_text),
          (
            0 ∷ drop 1 buf,
            0,
            refl,
            length-terminated 0 [] buf (omega arith) (omega arith),
            some_room,
            refl,
            ground (arith, no_text),
            λ k. inl (omega arith),
          ),
        )
        | inr (error, e) ↦
            let n : ℕ = if ltb (length error) (size - 1) then length error else size - 1 in
            let fits : n ≤ length error = ground arith in
            let t : St X =
              if ltb 0 n
              then record s1 { log = log_after err "Drained error string: %s\n" s1 }
              else s1 in
            (
              (pos 1, some (terminated n error buf)),
              t,
              ground (arith, m.live, e),
              (
                terminated n error buf,
                n,
                refl,
                length-terminated n error buf fits (ground arith),
                ground arith,
                terminated-nul n error (drop (suc n) buf) fits,
                ground (arith, e),
                λ k. ground (arith, e, terminated-text n error (drop (suc n) buf) k fits),
              ),
            )
      ]
