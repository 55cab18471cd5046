-- ===== src/Pnf/Tells.antt =====
-- The P7 port in the blocks that the handlers of src/nfapi_pnf.c send.
use oai_lte_5g_multi_ue_prox.Base.{
  ℕ, ◌≡◌, ◌≢◌, List, [], ◌∷◌, map, ℤ, pos, ◌==◌, leb, arith, All, All-append, Bool-cases, inl, inr,
}
use oai_lte_5g_multi_ue_prox.Pnf.{PnfInfo, P5State}
use oai_lte_5g_multi_ue_prox.Pnf.Message.{Block, Action, sends, starts_p7_thread}
use oai_lte_5g_multi_ue_prox.Pnf.Common.{
  rel10_blocks, rel11_blocks, rel12_blocks, rel13_blocks, from_release, release_blocks,
  pnf_start_request,
}
use oai_lte_5g_multi_ue_prox.Pnf.Nr.{nr_param_block}

-- A block that tells the PNF's P7 port tells this one.
abbrev pub TellsPort : ℕ → Block → Type 0
TellsPort port block = block.0 ≡ 0x0105 → block.1 ≡ pos port ∷ []

-- A message announces no other port, and a P7 thread listens on no other.
abbrev pub Agrees : ℕ → Action → Type 0
Agrees port (sends m) = All (TellsPort port) m.blocks
Agrees port (starts_p7_thread c) = c.local_p7_port ≡ port
Agrees port _ = Unit

tells_other : (port tag : ℕ) (values : List ℤ) → tag ≢ 0x0105 → TellsPort port (tag, values)
tells_other port tag values other e = absurd (other e)

from_release-TellsPort :
    (port release n : ℕ) (blocks : List Block)
    → All (TellsPort port) blocks
    → All (TellsPort port) (from_release release n blocks)
from_release-TellsPort port release n blocks h = elim (Bool-cases (leb n release)) [
  | inl t ↦ ground (arith, t, h)
  | inr t ↦ ground (arith, t, h)
]

-- Blocks whose tags are literals other than the port's.
pub release_blocks-TellsPort :
    (port : ℕ) (pnf : PnfInfo) → All (TellsPort port) (release_blocks pnf)
release_blocks-TellsPort port pnf =
    let rel10 =
      from_release-TellsPort port pnf.release 10 (rel10_blocks pnf.phy)
        ((λ e. absurd (omega (arith, e))), tt) in
    let rel11 =
      from_release-TellsPort port pnf.release 11 (rel11_blocks pnf.phy)
        ((λ e. absurd (omega (arith, e))), tt) in
    let rel12 =
      from_release-TellsPort port pnf.release 12 (rel12_blocks pnf.phy)
        ((λ e. absurd (omega (arith, e))), tt) in
    let rel13 =
      from_release-TellsPort port pnf.release 13 (rel13_blocks pnf.phy)
        ((λ e. absurd (omega (arith, e))), ((λ e. absurd (omega (arith, e))), tt)) in
    All-append (TellsPort port) _ _
      (All-append (TellsPort port) _ _ (All-append (TellsPort port) _ _ rel10 rel11) rel12) rel13

abbrev pub nr_p7_port : ℕ
nr_p7_port = 50610

nr_param_block-TellsPort :
    (address : List ℕ) (tag : ℕ) → TellsPort nr_p7_port (nr_param_block address tag)
nr_param_block-TellsPort address tag = ground arith

pub nr_param_blocks-TellsPort :
    (address tags : List ℕ) → All (TellsPort nr_p7_port) (map (nr_param_block address) tags)
nr_param_blocks-TellsPort address [] = tt
nr_param_blocks-TellsPort address (tag ∷ tags) =
    (nr_param_block-TellsPort address tag, nr_param_blocks-TellsPort address tags)

pub start-Agrees : (port : ℕ) (s : P5State) → All (Agrees port) (pnf_start_request s).1
unfolding pnf_start_request
start-Agrees port s = elim (Bool-cases (s.pnf.phy.id == 0)) [
  | inl t ↦ ground (arith, t)
  | inr t ↦ ground (arith, t)
]
