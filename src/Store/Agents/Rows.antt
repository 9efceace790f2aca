-- ===== src/Store/Agents/Rows.antt =====
-- The rows of app/store/registry.py after `upsert_agent`.
use bu_iam.Prelude.{
  ◌≡◌, refl, sym, ap, subst, inl, inr, some, List, [], ◌∷◌, arith, ◌==◌, eq_refl, Bool-cases,
}
use bu_iam.Prelude.Result.{ok, ok-injective}
use bu_iam.World.{World, Agent}
use bu_iam.Store.Agents.{
  find_agent, get_agent, merge_agent, upsert_agent_row, clean_agent, name_taken, upsert_agent,
}

-- a row with an agent's columns; the times may be those of an older row
pub record IsRowOf (a b : Agent) : Type 0 where
  pub id : b.agent_id ≡ a.agent_id
  pub name : b.name ≡ a.name
  pub status : b.status ≡ a.status
  pub endpoint : b.endpoint ≡ a.endpoint
  pub capabilities : b.static_capabilities ≡ a.static_capabilities

merged : (a b : Agent) → IsRowOf a (merge_agent a b)
unfolding merge_agent
merged a b = record { id = refl; name = refl; status = refl; endpoint = refl; capabilities = refl }

find-upsert_row :
    (a : Agent) (agents : List Agent)
    → (b : Agent) × (find_agent a.agent_id (upsert_agent_row a agents) ≡ some b) × IsRowOf a b
unfolding find_agent upsert_agent_row merge_agent
find-upsert_row a [] = (
  a,
  rw (eq_refl a.agent_id) refl,
  record { id = refl; name = refl; status = refl; endpoint = refl; capabilities = refl },
)
find-upsert_row a (c ∷ rest) = elim (Bool-cases (c.agent_id == a.agent_id)) [
  | inl same ↦ (merge_agent a c, ground (arith, same, eq_refl a.agent_id), merged a c)
  | inr other ↦ let (b, found, row) = find-upsert_row a rest in (b, simp (other) found, row)
]

-- What `upsert_agent` returns has the cleaned columns, and its row is read back under its id.
pub upsert_agent-IsRowOf :
    (a b : Agent) (w w' : World)
    → upsert_agent a w ≡ (ok b, w')
    → (row : Agent) × (get_agent a.agent_id w' ≡ some row)
      × IsRowOf (clean_agent a w) row
      × (b ≡ clean_agent a w)
      × (w'.credentials ≡ w.credentials)
      × (w'.did_documents ≡ w.did_documents)
      × (w'.clock ≡ w.clock)
unfolding upsert_agent get_agent clean_agent
upsert_agent-IsRowOf a b w w' h = elim (Bool-cases (name_taken a.agent_id a.name w.agents)) [
  | inl taken ↦ absurd (cc (ap (λ q. q.0) (rw taken at h)))
  | inr free ↦
      let written : record w { agents = upsert_agent_row (clean_agent a w) w.agents } ≡ w' =
        ap (λ q. q.1) (rw free at h) in
      let (row, found, is_row) = find-upsert_row (clean_agent a w) w.agents in
      (
        row,
        subst (λ (v : World). get_agent a.agent_id v ≡ some row) written found,
        is_row,
        sym (ok-injective (ap (λ q. q.0) (rw free at h))),
        ap (λ (v : World). v.credentials) (sym written),
        ap (λ (v : World). v.did_documents) (sym written),
        ap (λ (v : World). v.clock) (sym written),
      )
]
