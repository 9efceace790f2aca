-- ===== src/Delegation/Capabilities/Parse.antt =====
-- What `parse_capabilities` (app/delegation/capabilities.py) accepts and returns.
use bu_iam.Prelude.{String, ◌≡◌, refl, sym, ◌∙◌, List, [], ◌∷◌}
use bu_iam.Prelude.Sets.{set_of, minus, Within, contains-set_of, minus-nil→Within, Within→minus-nil}
use bu_iam.Prelude.Result.{ok}
use bu_iam.Libs.{Libs}
use bu_iam.Delegation.Capabilities.{parse_or_raise, parse_capabilities}

parse_or_raise-ok :
    (lib : Libs) (parsed unknown p : List String)
    → parse_or_raise lib parsed unknown ≡ ok p
    → (unknown ≡ []) × (p ≡ parsed)
unfolding parse_or_raise
parse_or_raise-ok lib parsed [] p h = (refl, cc)
parse_or_raise-ok lib parsed (u ∷ us) p h = cc

-- The names that are parsed are the raw ones, and all of them are known.
pub parse_capabilities-ok :
    (lib : Libs) (raw known p : List String)
    → parse_capabilities lib raw known ≡ ok p
    → (p ≡ set_of raw) × Within raw known
unfolding parse_capabilities
parse_capabilities-ok lib raw known p h =
    let (none_unknown, same) = parse_or_raise-ok lib (set_of raw) (minus (set_of raw) known) p h in
    (same, λ c m. minus-nil→Within (set_of raw) known none_unknown c (contains-set_of c raw ∙ m))

-- Known names are parsed.
pub parse_capabilities-Within :
    (lib : Libs) (raw known : List String)
    → Within raw known
    → parse_capabilities lib raw known ≡ ok (set_of raw)
unfolding parse_capabilities parse_or_raise
parse_capabilities-Within lib raw known h =
    rw (Within→minus-nil (set_of raw) known (λ c m. h c (sym (contains-set_of c raw) ∙ m)))
