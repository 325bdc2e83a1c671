-- ===== src/Shim/Log/Laws.antt =====
-- What the callback of the log gets.
use Prim.Native.String.{String}
use xeryon_ether_cat.Base.{
  ℕ, pos, ◌∷◌, ◌+◌, ◌<◌, ◌≡◌, ◌⊎◌, inl, inr, true, false, arith, Bool-cases, leb, ◌||◌,
}
use xeryon_ether_cat.Soem.{Platform}
use xeryon_ether_cat.Shim.{St, LogLevel}
use xeryon_ether_cat.Shim.Log.{log_after, message_text}

-- What `vsnprintf` is documented to do where formatting has no error: it returns the length of the
-- text, whatever the size of the buffer is, and a buffer of more bytes than that gets the text.
pub record Formats {X : Type 0} (p : Platform X) (text : X → String → String) (len : X → String → ℕ)
    : Type 0 where
  pub measure : (bus : X) (fmt : String) (n : ℕ) → (p.vsnprintf bus fmt n).0 ≡ pos (len bus fmt)
  pub write :
      (bus : X) (fmt : String) (n : ℕ) → len bus fmt < n → (p.vsnprintf bus fmt n).1 ≡ text bus fmt

module _ {X : Type 0} ⦃p : Platform X⦄ where
  -- With a callback, and where formatting has no error, one line of the message's level is added to
  -- the log, and no other. It has the whole text of the message, or it says that there is no memory;
  -- the latter only if the text does not fit 512 bytes with its NUL and a block of its size with the
  -- NUL is refused.
  pub log_after_whole :
      (text : X → String → String) (len : X → String → ℕ) (lvl : LogLevel) (fmt : String) (s : St X)
      → Formats p text len
      → s.log_cb ≡ true
      → (log_after lvl fmt s ≡ record { level = lvl; message = text s.bus fmt } ∷ s.log)
        ⊎ ((log_after lvl fmt s
              ≡ record { level = lvl; message = "log_message: out of memory" } ∷ s.log)
            × (512 < len s.bus fmt + 1)
            × (p.malloc s.bus (len s.bus fmt + 1) ≡ false))
  unfolding log_after message_text
  log_after_whole text len lvl fmt s f cb =
      let size = f.measure s.bus fmt 0 in
      let whole = f.write s.bus fmt (len s.bus fmt + 1) (omega arith) in
      elim (Bool-cases (leb (len s.bus fmt + 1) 512 || p.malloc s.bus (len s.bus fmt + 1))) [
        | inl room ↦ inl (ground (arith, cb, size, whole, room))
        | inr none_left ↦ inr (ground (arith, cb, size, none_left))
      ]
