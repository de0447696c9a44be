-- ===== src/Examples/Accesses.antt =====
-- A store and a load of a halfword in the upper lanes of a word.
use pipelined_core.Common.{ℕ, false, List, [], ◌∷◌, ok, ◌≡◌, refl}
use pipelined_core.Common.Dict.{Dict, lookup}
use pipelined_core.Common.Text.{codes, int_16}
use pipelined_core.Lockstep.Event.{Retire, effects_of}
use pipelined_core.Lockstep.Insn.{load_size, store_size}
use pipelined_core.Lockstep.Memory.{stored}
use pipelined_core.Lockstep.Memory.Access.{mem_entry-stored, mem_entry-reads}
use pipelined_core.Lockstep.Reference.{mem_entry, sorted}
use pipelined_core.Examples.Events.{sh}

-- sh x2, 0(x1) at 0x80001002, of 0x1234
mem_entry-stored_example :
    (w : Dict ℕ) × ((mem_entry 2134051 (codes "80001002" ∷ codes "1234" ∷ []) ([], []) ≡ ok ([], w))
      × ((k : ℕ)
          → (lookup k w ≡ stored 2147487746 2 4660 k)
            × (lookup k (effects_of sh 2147487746 305397760 [] []).writes
                ≡ stored 2147487746 2 4660 k)))
unfolding store_size int_16
mem_entry-stored_example =
    mem_entry-stored sh 2134051 2147487746 4660 305397760 2 (codes "80001002") (codes "1234") [] []
      refl refl refl refl refl refl

-- lh x2, 0(x1) at 0x80001002
abbrev lh : Retire
lh = record {
  order = 2;
  pc = codes "80000008";
  insn = codes "00009103";
  priv = 3;
  rd = 2;
  rd_data = codes "00001234";
  mem_addr = codes "80001002";
  mem_rmask = 12;
  mem_wmask = 0;
  mem_wdata = codes "00000000";
  trap = false;
  cause = codes "00000000";
  tval = codes "00000000";
  csr_writes = [];
}

mem_entry-reads_example :
    (reads : List ℕ) × ((mem_entry 37123 (codes "80001002" ∷ []) ([], []) ≡ ok (reads, []))
      × ((effects_of lh 2147487746 0 ((2, 4660) ∷ []) []).reads ≡ sorted reads))
unfolding load_size int_16
mem_entry-reads_example =
    mem_entry-reads lh 37123 2147487746 0 2 (codes "80001002") ((2, 4660) ∷ []) [] refl refl refl
      refl
