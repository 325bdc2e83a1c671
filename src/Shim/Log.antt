-- ===== src/Shim/Log.antt =====
-- `log_message` and `soem_set_log_callback` of soem_shim.c.
pub mod Laws
use Prim.Native.String.{String}
use xeryon_ether_cat.Base.{
  ℕ, ℤ, pos, pos_part, List, ◌∷◌, Bool, ◌||◌, ◌+◌, some, leb, ltb_ℤ, if◌then◌else◌,
}
use xeryon_ether_cat.Soem.{Platform}
use xeryon_ether_cat.Shim.{St, M, LogLevel, LogLine, info, warn, err}

-- `soem_set_log_callback`, with a function or NULL.
pub soem_set_log_callback : {X : Type 0} → Bool → M X (Unit {0})
soem_set_log_callback cb s = some (tt, record s { log_cb = cb })

module _ {X : Type 0} ⦃p : Platform X⦄ where
  -- The text that the callback gets: a first call of `vsnprintf` without a buffer measures it, and a
  -- second one writes it, up to 512 bytes with its NUL to the stack, more to a block that is freed
  -- after the call.
  pub message_text : String → X → String
  message_text fmt bus =
      let needed = (p.vsnprintf bus fmt 0).0 in
      let bufsize = pos_part needed + 1 in
      if ltb_ℤ needed (pos 0)
      then "log_message: formatting error"
      else if leb bufsize 512 || p.malloc bus bufsize
      then (p.vsnprintf bus fmt bufsize).1
      else "log_message: out of memory"

  -- The log after a message; without a callback nothing is done.
  pub log_after : LogLevel → String → St X → List LogLine
  unfolding message_text
  log_after lvl fmt s =
      if s.log_cb then record { level = lvl; message = message_text fmt s.bus } ∷ s.log else s.log

  abbrev pub log_message : LogLevel → String → M X (Unit {0})
  log_message lvl fmt s = some (tt, record s { log = log_after lvl fmt s })

  abbrev pub log_info : String → M X (Unit {0})
  log_info = log_message info

  abbrev pub log_warn : String → M X (Unit {0})
  log_warn = log_message warn

  abbrev pub log_err : String → M X (Unit {0})
  log_err = log_message err
