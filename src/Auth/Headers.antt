-- ===== src/Auth/Headers.antt =====
-- How a request's headers are read and its meter is published: src/auth.rs. A `HashMap` is an
-- association list; the order of its iteration is that of the list.
use sui_x402_verifier.Base.{
  Option, none, some, List, [], ◌∷◌, if◌then◌else◌, Text, codes, trim, is_empty,
  eq_ignore_ascii_case, Map, lookup, show_u64,
}
use sui_x402_verifier.Auth.{Meter, free_meter, session_meter, unknown_meter}

-- `map.iter().find(|(key, _)| key.eq_ignore_ascii_case(name))`
unfoldable pub find_ignoring_case : Text → Map Text → Option Text
find_ignoring_case name [] = none
find_ignoring_case name ((key, value) ∷ rest) =
    let later = find_ignoring_case name rest in
    if eq_ignore_ascii_case key name then some value else later

-- The exact name, or else any spelling of it.
abbrev or_spelled : Option Text → Option Text → Option Text
or_spelled (some value) other = some value
or_spelled none other = other

abbrev not_blank : Option Text → Option Text
not_blank none = none
not_blank (some value) = if is_empty (trim value) then none else some value

-- `HeaderView::get`
unfoldable pub get_header : Map Text → Text → Option Text
unfolding find_ignoring_case
get_header map name = not_blank (or_spelled (lookup name map) (find_ignoring_case name map))

-- `Meter::headers`
unfoldable pub meter_headers : Meter → List (Text × Text)
meter_headers (free_meter remaining limit reset_secs) =
    (codes "x-x402-free-remaining", show_u64 remaining)
    ∷ (codes "x-x402-free-limit", show_u64 limit)
    ∷ (codes "x-x402-free-reset", show_u64 reset_secs)
    ∷ []
meter_headers (session_meter remaining quota expires_in_secs) =
    (codes "x-x402-session-remaining", show_u64 remaining)
    ∷ (codes "x-x402-session-quota", show_u64 quota)
    ∷ (codes "x-x402-session-expires", show_u64 expires_in_secs)
    ∷ []
meter_headers unknown_meter = []
