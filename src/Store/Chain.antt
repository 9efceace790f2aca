-- ===== src/Store/Chain.antt =====
-- app/store/chain.py: the readable delegation chain of each trace.
use bu_iam.Prelude.{
  ℕ, suc, String, Bool, true, false, List, [], ◌∷◌, ◌++◌, max, leb, ◌==◌, if◌then◌else◌,
}
use bu_iam.Protocol.{DelegationHop}
use bu_iam.World.{World, ChainRow}

-- COALESCE(MAX(step_index), -1) + 1 over the rows of a trace
unfoldable pub next_step : String → List ChainRow → ℕ
next_step t [] = 0
next_step t (r ∷ rs) =
    let rest = next_step t rs in if r.trace_id == t then max (suc r.step_index) rest else rest

unfoldable pub append_chain_hop : String → String → DelegationHop → World → World
unfolding next_step
append_chain_hop trace request hop w = record w {
  chain =
      w.chain
      ++ record {
        trace_id = trace;
        request_id = request;
        step_index = next_step trace w.chain;
        hop = hop;
        created_at = w.clock;
      }
        ∷ [];
}

unfoldable pub has_trace : String → List ChainRow → Bool
has_trace t [] = false
has_trace t (r ∷ rs) = if r.trace_id == t then true else has_trace t rs

unfoldable pub chain_exists : String → World → Bool
unfolding has_trace
chain_exists t w = has_trace t w.chain

unfoldable pub append_chain_hops : String → String → List DelegationHop → World → World
unfolding append_chain_hop
append_chain_hops trace request [] w = w
append_chain_hops trace request (h ∷ hs) w =
    append_chain_hops trace request hs (append_chain_hop trace request h w)

unfoldable pub append_chain_hops_if_empty : String → String → List DelegationHop → World → World
unfolding chain_exists append_chain_hops
append_chain_hops_if_empty trace request hops w =
    if chain_exists trace w then w else append_chain_hops trace request hops w

-- ORDER BY step_index ASC
unfoldable pub place_row : ChainRow → List ChainRow → List ChainRow
place_row r [] = r ∷ []
place_row r (x ∷ xs) = if leb r.step_index x.step_index then r ∷ x ∷ xs else x ∷ place_row r xs

-- the rows of a trace, in that order
unfoldable pub trace_rows : String → List ChainRow → List ChainRow
unfolding place_row
trace_rows t [] = []
trace_rows t (r ∷ rs) =
    let rest = trace_rows t rs in if r.trace_id == t then place_row r rest else rest

unfoldable pub hops_of : List ChainRow → List DelegationHop
hops_of [] = []
hops_of (r ∷ rs) = r.hop ∷ hops_of rs

unfoldable pub list_chain : String → World → List DelegationHop
unfolding trace_rows hops_of
list_chain t w = hops_of (trace_rows t w.chain)
