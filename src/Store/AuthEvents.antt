-- ===== src/Store/AuthEvents.antt =====
-- app/store/auth_events.py: a row for each identity check.
use bu_iam.Protocol.{Verdict, allow, deny, root}
use bu_iam.Prelude.{
  String, Bool, true, false, Option, none, some, List, [], ◌∷◌, ◌++◌, ◌==◌, ◌&&◌, if◌then◌else◌,
}
use bu_iam.World.{World, AuthEventRow}

-- INSERT: the row with the time of the clock
unfoldable pub record_auth_event : AuthEventRow → World → World
record_auth_event e w = record w {
  auth_events = w.auth_events ++ record e { created_at = w.clock } ∷ [];
}

-- The WHERE clause: a column that is asked for must be this text.
abbrev asked_for : Option String → Option String → Bool
asked_for none column = true
asked_for (some x) none = false
asked_for (some x) (some y) = y == x

-- The arguments of `list_auth_events`.
pub record Filter : Type 0 where
  pub trace_id : Option String
  pub request_id : Option String
  pub jti : Option String
  pub agent_id : Option String
  pub decision : Option String

-- the texts of `identity_decision`
abbrev pub verdict_text : Verdict → String
verdict_text allow = "allow"
verdict_text deny = "deny"
verdict_text root = "root"

unfoldable pub event_matches : Filter → AuthEventRow → Bool
event_matches f e =
    asked_for f.trace_id (some e.trace_id)
    && (asked_for f.request_id (some e.request_id)
        && (asked_for f.jti e.token_jti
            && (asked_for f.agent_id e.token_agent_id
                && asked_for f.decision (some (verdict_text e.identity_decision)))))

unfoldable pub select_events : Filter → List AuthEventRow → List AuthEventRow
unfolding event_matches
select_events f [] = []
select_events f (e ∷ es) =
    let rest = select_events f es in if event_matches f e then e ∷ rest else rest

unfoldable pub list_auth_events : Filter → World → List AuthEventRow
unfolding select_events
list_auth_events f w = select_events f w.auth_events
