-- ===== src/Shim/Mapped.antt =====
-- The states between `soem_initialize` and `soem_shutdown`: the handle is allocated, and SOEM has
-- laid every slave's process data, and that of the group, into the IO map.
use xeryon_ether_cat.Base.{ℕ, pos, Option, none, some, ◌≡◌, ◌∙◌, ◌+◌, ◌≤◌, ◌<ℤ◌, true, refl}
use xeryon_ether_cat.Soem.{Net, ec_maxslave}
use xeryon_ether_cat.Soem.Mapping.{SameMapping}
use xeryon_ether_cat.Shim.{St, Call, after_call}

-- `n` bytes from the pointer on lie inside the IO map, or the pointer is NULL.
abbrev pub Inside : Option ℕ → ℕ → ℕ → Type 0
Inside none n size = Unit
Inside (some at) n size = at + n ≤ size

-- The same for data that must be there unless it is empty.
abbrev pub InsideAll : Option ℕ → ℕ → ℕ → Type 0
InsideAll none n size = n ≡ 0
InsideAll (some at) n size = at + n ≤ size

pub record IsMapped {X : Type 0} (s : St X) : Type 0 where
  pub live : s.allocated ≡ true
  pub few : s.handle.context.slavecount <ℤ pos ec_maxslave
  pub outs :
      (i : ℕ)
      → Inside
          (s.handle.context.slavelist i).outputs
          (s.handle.context.slavelist i).obytes
          s.iomap.size
  pub ins :
      (i : ℕ)
      → Inside
          (s.handle.context.slavelist i).inputs
          (s.handle.context.slavelist i).ibytes
          s.iomap.size
  pub group_outs :
      InsideAll s.handle.context.group.outputs s.handle.context.group.obytes s.iomap.size
  pub group_ins : InsideAll s.handle.context.group.inputs s.handle.context.group.ibytes s.iomap.size

-- Where the slaves' data lies, and that it lies inside the IO map, is all that counts.
pub SameMapping-IsMapped :
    {X : Type 0} (s t : St X)
    → t.allocated ≡ s.allocated
    → t.iomap.size ≡ s.iomap.size
    → SameMapping t.handle.context s.handle.context
    → IsMapped s
    → IsMapped t
SameMapping-IsMapped s t live size same m = record {
  live = live ∙ m.live;
  few = rw same.slavecount m.few;
  outs = λ i. rw ((same.slaves i).outputs, (same.slaves i).obytes, size) (m.outs i);
  ins = λ i. rw ((same.slaves i).inputs, (same.slaves i).ibytes, size) (m.ins i);
  group_outs = rw (same.group, size) m.group_outs;
  group_ins = rw (same.group, size) m.group_ins;
}

-- A call that does not move the mapping leaves the state mapped.
pub after_call-IsMapped :
    {X : Type 0} (c : Call) (s : St X) (n : Net X)
    → SameMapping n.context s.handle.context
    → IsMapped s
    → IsMapped (after_call c s n)
after_call-IsMapped c s n same m = SameMapping-IsMapped s (after_call c s n) refl refl same m

-- What a state has to have in common with a mapped one: the handle's block, the context and the
-- size of the IO map.
pub same-IsMapped :
    {X : Type 0} (s t : St X)
    → t.allocated ≡ s.allocated
    → t.handle.context ≡ s.handle.context
    → t.iomap.size ≡ s.iomap.size
    → IsMapped s
    → IsMapped t
same-IsMapped s t live context size m = record {
  live = live ∙ m.live;
  few = rw context m.few;
  outs = λ i. rw (context, size) (m.outs i);
  ins = λ i. rw (context, size) (m.ins i);
  group_outs = rw (context, size) m.group_outs;
  group_ins = rw (context, size) m.group_ins;
}
