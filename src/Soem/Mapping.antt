-- ===== src/Soem/Mapping.antt =====
-- What a call of SOEM may leave alone: the mapping of the process data, and the states of slaves.
use xeryon_ether_cat.Base.{ℕ, ℤ, ◌≡◌, refl, ◌∙◌}
use xeryon_ether_cat.Soem.{Slave, Context, Net, Platform}

-- Where a slave's process data lies in the IO map.
pub record SamePlace (s t : Slave) : Type 0 where
  pub obytes : s.obytes ≡ t.obytes
  pub outputs : s.outputs ≡ t.outputs
  pub ibytes : s.ibytes ≡ t.ibytes
  pub inputs : s.inputs ≡ t.inputs

-- Both contexts have the same slaves at the same places of the IO map, and the same group.
pub record SameMapping (c d : Context) : Type 0 where
  pub slavecount : c.slavecount ≡ d.slavecount
  pub group : c.group ≡ d.group
  pub slaves : (i : ℕ) → SamePlace (c.slavelist i) (d.slavelist i)

-- A context has its own mapping.
pub same_itself : (c : Context) → SameMapping c c
same_itself c = record {
  slavecount = refl;
  group = refl;
  slaves = λ i. record { obytes = refl; outputs = refl; ibytes = refl; inputs = refl };
}

pub SameMapping-trans : (c d e : Context) → SameMapping c d → SameMapping d e → SameMapping c e
SameMapping-trans c d e p q = record {
  slavecount = p.slavecount ∙ q.slavecount;
  group = p.group ∙ q.group;
  slaves = λ i. record {
    obytes = (p.slaves i).obytes ∙ (q.slaves i).obytes;
    outputs = (p.slaves i).outputs ∙ (q.slaves i).outputs;
    ibytes = (p.slaves i).ibytes ∙ (q.slaves i).ibytes;
    inputs = (p.slaves i).inputs ∙ (q.slaves i).inputs;
  };
}

-- The mapping is made by `ecx_config_map_group`; the calls that follow it do not move it.
pub record KeepsMapping {X : Type 0} (p : Platform X) : Type 0 where
  pub close : (n : Net X) → SameMapping (p.ecx_close n).context n.context
  pub configdc : (n : Net X) → SameMapping (p.ecx_configdc n).context n.context
  pub send : (n : Net X) → SameMapping (p.ecx_send_processdata n).1.context n.context
  pub receive :
      (t : ℤ) (n : Net X) → SameMapping (p.ecx_receive_processdata t n).1.context n.context
  pub statecheck :
      (i want : ℕ) (t : ℤ) (n : Net X)
      → SameMapping (p.ecx_statecheck i want t n).1.context n.context
  pub writestate : (i : ℕ) (n : Net X) → SameMapping (p.ecx_writestate i n).context n.context
  pub readstate : (n : Net X) → SameMapping (p.ecx_readstate n).context n.context
  pub usleep : (us : ℕ) (n : Net X) → SameMapping (p.osal_usleep us n).context n.context
  pub elist : (n : Net X) → SameMapping (p.ecx_elist2string n).1.context n.context
