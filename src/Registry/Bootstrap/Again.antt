-- ===== src/Registry/Bootstrap/Again.antt =====
-- Running `register_did_documents` (app/registry/bootstrap.py) twice.
use bu_iam.Prelude.{
  ℕ, ◌+◌, ◌≤◌, String, ◌≡◌, refl, sym, ap, ◌∙◌, subst, inl, inr, Option, none, some, List, [], ◌∷◌,
  arith, ◌==◌, eq_iff, eq_refl, Bool-cases, length,
}
use bu_iam.Prelude.Result.{Result, ok, err, ok-injective}
use bu_iam.Prelude.Exec.{bind-step, pure-ok, continue}
use bu_iam.Json.{Fields}
use bu_iam.Libs.{Libs}
use bu_iam.Protocol.Errors.{Exception, Read}
use bu_iam.World.{World}
use bu_iam.Store.DidRegistry.{get_did_document, get_did_document-upsert}
use bu_iam.Identity.Did.{build_did}
use bu_iam.Identity.Document.{build_did_document}
use bu_iam.Registry.Bootstrap.{
  DemoAgent, demo_agents, Demo, endpoint_of, write_document, store_document, count_written,
  add_document, ensure_document, ensure_documents, register_did_documents,
}

-- the subject has a stored document
record IsPresent (id : String) (w : World) : Type 0 where
  document : Fields
  stored : get_did_document (build_did id) w ≡ some document

module _ (lib : Libs) where
  write-keeps :
      (id : String) (built : Read Fields) (w : World) (d : String) (document : Fields)
      → get_did_document (build_did id) w ≡ none
      → get_did_document d w ≡ some document
      → get_did_document d (count_written lib (write_document lib id built w)).1 ≡ some document
  unfolding write_document count_written
  write-keeps id (err x) w d document missing there = there
  write-keeps id (ok made) w d document missing there = elim (Bool-cases (build_did id == d)) [
    | inl same ↦ absurd (
        cc
          (sym missing ∙ ap (λ t. get_did_document t w) ((eq_iff (build_did id) d).0 same) ∙ there))
    | inr differs ↦ get_did_document-upsert d (build_did id) id made w ∙ simp (differs) there
  ]

  add-keeps :
      (id : String) (endpoint : Option String) (o : Option Fields) (w : World) (d : String)
      (document : Fields)
      → get_did_document (build_did id) w ≡ o
      → get_did_document d w ≡ some document
      → get_did_document d (add_document lib id endpoint o w).1 ≡ some document
  unfolding add_document store_document
  add-keeps id endpoint none w d document missing there =
      write-keeps id (build_did_document lib id endpoint) w d document missing there
  add-keeps id endpoint (some old) w d document found there = there

  write-IsPresent :
      (id : String) (built : Read Fields) (w : World) (n : ℕ)
      → (count_written lib (write_document lib id built w)).0 ≡ ok n
      → IsPresent id (count_written lib (write_document lib id built w)).1
  unfolding write_document count_written
  write-IsPresent id (err x) w n h = absurd (cc h)
  write-IsPresent id (ok made) w n h = record {
    document = made;
    stored =
        get_did_document-upsert (build_did id) (build_did id) id made w
        ∙ rw (eq_refl (build_did id)) refl;
  }

  add-IsPresent :
      (id : String) (endpoint : Option String) (o : Option Fields) (w : World) (n : ℕ)
      → get_did_document (build_did id) w ≡ o
      → (add_document lib id endpoint o w).0 ≡ ok n
      → IsPresent id (add_document lib id endpoint o w).1
  unfolding add_document store_document
  add-IsPresent id endpoint none w n missing h =
      write-IsPresent id (build_did_document lib id endpoint) w n h
  add-IsPresent id endpoint (some old) w n found h = record { document = old; stored = found }

  ensure-IsPresent :
      (id : String) (endpoint : Option String) (w w' : World) (n : ℕ)
      → ensure_document lib id endpoint w ≡ (ok n, w')
      → IsPresent id w'
  unfolding ensure_document
  ensure-IsPresent id endpoint w w' n h =
      subst (IsPresent id) (ap (λ q. q.1) h)
        (add-IsPresent id endpoint (get_did_document (build_did id) w) w n refl (ap (λ q. q.0) h))

  ensure-keeps :
      (id : String) (endpoint : Option String) (w w' : World) (out : Read ℕ) (other_id : String)
      → ensure_document lib id endpoint w ≡ (out, w')
      → IsPresent other_id w
      → IsPresent other_id w'
  unfolding ensure_document
  ensure-keeps id endpoint w w' out other_id h there =
      subst (IsPresent other_id) (ap (λ q. q.1) h) (record {
        document = there.document;
        stored =
            add-keeps id endpoint (get_did_document (build_did id) w) w (build_did other_id)
              there.document refl there.stored;
      })

  ensure-again :
      (id : String) (endpoint : Option String) (w : World)
      → IsPresent id w
      → ensure_document lib id endpoint w ≡ (ok 0, w)
  unfolding ensure_document add_document
  ensure-again id endpoint w there = rw there.stored refl

  written-bound :
      (q : Result Exception (Unit {0}) × World) (n : ℕ) → (count_written lib q).0 ≡ ok n → n ≤ 1
  unfolding count_written
  written-bound (ok u, w) n h = subst (λ k. k ≤ 1) (ok-injective h) (omega arith)
  written-bound (err x, w) n h = absurd (cc h)

  add-bound :
      (id : String) (endpoint : Option String) (o : Option Fields) (w : World) (n : ℕ)
      → (add_document lib id endpoint o w).0 ≡ ok n
      → n ≤ 1
  unfolding add_document
  add-bound id endpoint none w n h = written-bound (store_document lib id endpoint w) n h
  add-bound id endpoint (some old) w n h = subst (λ k. k ≤ 1) (ok-injective h) (omega arith)

  ensure-bound :
      (id : String) (endpoint : Option String) (w w' : World) (n : ℕ)
      → ensure_document lib id endpoint w ≡ (ok n, w')
      → n ≤ 1
  unfolding ensure_document
  ensure-bound id endpoint w w' n h =
      add-bound id endpoint (get_did_document (build_did id) w) w n (ap (λ q. q.0) h)

  all-bound :
      (demo : Demo) (agents : List DemoAgent) (w w' : World) (n : ℕ)
      → ensure_documents lib demo agents w ≡ (ok n, w')
      → n ≤ length agents
  unfolding ensure_documents
  all-bound demo [] w w' n h = subst (λ k. k ≤ 0) (ok-injective (ap (λ q. q.0) h)) (omega arith)
  all-bound demo (a ∷ rest) w w' n h =
      let (k, w₁, first, h₁) = bind-step _ _ _ h in
      let (m, w₂, others, h₂) = bind-step _ _ _ h₁ in
      let (sum, last) = pure-ok h₂ in
      let one = ensure-bound a.agent_id (some (endpoint_of demo a)) w w₁ k first in
      let more = all-bound demo rest w₁ w₂ m others in omega arith

  -- the list of agents
  data AllPresent (w : World) : List DemoAgent → Type 0 where
    nobody : AllPresent w []
    and_also :
        (a : DemoAgent) (rest : List DemoAgent)
        → IsPresent a.agent_id w
        → AllPresent w rest
        → AllPresent w (a ∷ rest)

  all-keeps :
      (demo : Demo) (agents : List DemoAgent) (w w' : World) (n : ℕ) (id : String)
      → ensure_documents lib demo agents w ≡ (ok n, w')
      → IsPresent id w
      → IsPresent id w'
  unfolding ensure_documents
  all-keeps demo [] w w' n id h there = subst (IsPresent id) (ap (λ q. q.1) h) there
  all-keeps demo (a ∷ rest) w w' n id h there =
      let (k, w₁, first, h₁) = bind-step _ _ _ h in
      let (m, w₂, others, h₂) = bind-step _ _ _ h₁ in
      let (sum, last) = pure-ok h₂ in
      subst (IsPresent id) last (
        all-keeps demo rest w₁ w₂ m id others
          (ensure-keeps a.agent_id (some (endpoint_of demo a)) w w₁ (ok k) id first there))

  all-AllPresent :
      (demo : Demo) (agents : List DemoAgent) (w w' : World) (n : ℕ)
      → ensure_documents lib demo agents w ≡ (ok n, w')
      → AllPresent w' agents
  unfolding ensure_documents
  all-AllPresent demo [] w w' n h = nobody
  all-AllPresent demo (a ∷ rest) w w' n h =
      let (k, w₁, first, h₁) = bind-step _ _ _ h in
      let (m, w₂, others, h₂) = bind-step _ _ _ h₁ in
      let (sum, last) = pure-ok h₂ in
      let here = ensure-IsPresent a.agent_id (some (endpoint_of demo a)) w w₁ k first in
      subst (λ v. AllPresent v (a ∷ rest)) last
        (and_also a rest (all-keeps demo rest w₁ w₂ m a.agent_id others here)
          (all-AllPresent demo rest w₁ w₂ m others))

  all-again :
      (demo : Demo) (w : World) (agents : List DemoAgent)
      → AllPresent w agents
      → ensure_documents lib demo agents w ≡ (ok 0, w)
  unfolding ensure_documents continue
  all-again demo w agents nobody = refl
  all-again demo w agents (and_also a rest here there) =
      rw (ensure-again a.agent_id (some (endpoint_of demo a)) w here, all-again demo w rest there)
        refl

-- If `register_did_documents` returns a number, that number is at most one for each demo identity,
-- and a second run from the state it leaves writes nothing and returns 0.
pub register_did_documents-again :
    (lib : Libs) (demo : Demo) (w w' : World) (n : ℕ)
    → register_did_documents lib demo w ≡ (ok n, w')
    → (register_did_documents lib demo w' ≡ (ok 0, w')) × (n ≤ 1 + length demo_agents)
unfolding register_did_documents continue
register_did_documents-again lib demo w w' n h =
    let (k, w₁, first, h₁) = bind-step _ _ _ h in
    let (m, w₂, others, h₂) = bind-step _ _ _ h₁ in
    let (sum, last) = pure-ok h₂ in
    let user =
      all-keeps lib demo demo_agents w₁ w₂ m demo.user_id others
        (ensure-IsPresent lib demo.user_id none w w₁ k first) in
    let agents = all-AllPresent lib demo demo_agents w₁ w₂ m others in
    let one = ensure-bound lib demo.user_id none w w₁ k first in
    let more = all-bound lib demo demo_agents w₁ w₂ m others in
    (
      subst (λ v. register_did_documents lib demo v ≡ (ok 0, v)) last
          (rw (ensure-again lib demo.user_id none w₂ user, all-again lib demo w₂ demo_agents agents)
            refl),
      subst (λ x. x ≤ 1 + length demo_agents) sum (omega arith),
    )
