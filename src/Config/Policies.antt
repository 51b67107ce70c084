-- ===== src/Config/Policies.antt =====
-- Which terms a request gets: src/config.rs.
use sui_x402_verifier.Base.{
  ◌≤◌, ◌≡◌, refl, subst, ◌⊎◌, inl, inr, true, false, ◌&&◌, Option, none, some, List, [], ◌∷◌,
  if◌then◌else◌, Text, starts_with, utf8_len, arith, Bool-cases, Option-cases, All, lookup,
}
use sui_x402_verifier.Config.{
  Config, RouteOverride, apply_to, beats, longest_match, defaults, named_override, route_for,
  policy_for, is_unknown_policy,
}

abbrev pub Matches : Text → RouteOverride → Type 0
Matches path route = starts_with path route.path_prefix ≡ true

-- A route is in the list.
abbrev pub Has : RouteOverride → List RouteOverride → Type 0
Has r [] = ⊥
Has r (s ∷ routes) = (r ≡ s) ⊎ Has r routes

-- No matching route of the list has a longer prefix.
abbrev pub NoLonger : Text → RouteOverride → List RouteOverride → Type 0
NoLonger path r = All (λ s.
    (starts_with path s.path_prefix ≡ false) ⊎ (utf8_len s.path_prefix ≤ utf8_len r.path_prefix))

-- What the scan finds, from a best so far.
record Selects (path : Text) (best : Option RouteOverride) (routes : List RouteOverride)
    (r : RouteOverride) : Type 0 where
  found : (best ≡ some r) ⊎ (Has r routes × Matches path r)
  longest : NoLonger path r routes
  over : (b : RouteOverride) → best ≡ some b → utf8_len b.path_prefix ≤ utf8_len r.path_prefix

longest_match-none :
    (path : Text) (best : Option RouteOverride) (routes : List RouteOverride)
    → longest_match path best routes ≡ none
    → (best ≡ none) × All (λ s. starts_with path s.path_prefix ≡ false) routes
unfolding longest_match beats
longest_match-none path best [] h = (h, tt)
longest_match-none path best (s ∷ routes) h = ground (
  arith,
  longest_match-none path (if starts_with path s.path_prefix && beats best s then some s else best)
      routes h,
)

taken :
    (path : Text) (best : Option RouteOverride) (s : RouteOverride) (routes : List RouteOverride)
    (r : RouteOverride)
    → (starts_with path s.path_prefix && beats best s) ≡ true
    → Selects path (some s) routes r
    → Selects path best (s ∷ routes) r
unfolding beats
taken path best s routes r better ih = record {
  found = elim ih.found [
    | inl e ↦
        inr (inl (ground arith), subst (Matches path) {x = s} {y = r} (ground arith) (ground arith))
    | inr (h, m) ↦ inr (inr h, m)
  ];
  longest = (inr (ih.over s refl), ih.longest);
  over = λ b e. ground (arith, ih.over s refl);
}

passed :
    (path : Text) (best : Option RouteOverride) (s : RouteOverride) (routes : List RouteOverride)
    (r : RouteOverride)
    → (starts_with path s.path_prefix && beats best s) ≡ false
    → Selects path best routes r
    → Selects path best (s ∷ routes) r
unfolding beats
passed path none s routes r worse ih = record {
  found = elim ih.found [ inl e ↦ inl e | inr (h, m) ↦ inr (inr h, m) ];
  longest = (inl (ground arith), ih.longest);
  over = ih.over;
}
passed path (some b) s routes r worse ih = record {
  found = elim ih.found [ inl e ↦ inl e | inr (h, m) ↦ inr (inr h, m) ];
  longest = (
    elim (Bool-cases (starts_with path s.path_prefix)) [
      | inl m ↦ inr (ground (arith, ih.over b refl))
      | inr m ↦ inl m
    ],
    ih.longest,
  );
  over = ih.over;
}

in_list :
    (path : Text) (r : RouteOverride) (routes : List RouteOverride)
    → (none ≡ some r) ⊎ (Has r routes × Matches path r)
    → Has r routes × Matches path r
in_list path r routes (inl e) = cc
in_list path r routes (inr h) = h

longest_match-Selects :
    (path : Text) (best : Option RouteOverride) (routes : List RouteOverride) (r : RouteOverride)
    → longest_match path best routes ≡ some r
    → Selects path best routes r
unfolding longest_match
longest_match-Selects path best [] r h = record {
  found = inl h;
  longest = tt;
  over = λ b e. ground arith;
}
longest_match-Selects path best (s ∷ routes) r h =
    elim (Bool-cases (starts_with path s.path_prefix && beats best s)) [
      | inl better ↦
          taken path best s routes r better
            (longest_match-Selects path (some s) routes r (rw better at h))
      | inr worse ↦
          passed path best s routes r worse
            (longest_match-Selects path best routes r (rw worse at h))
    ]

-- A request with no named policy gets the terms of the route with the longest prefix of its path,
-- and the label of that route; where no route matches it gets the defaults.
pub route_for-cases :
    (config : Config) (path : Text)
    → (All (λ s. starts_with path s.path_prefix ≡ false) config.routes
        × (route_for config path ≡ defaults config))
      ⊎ ((r : RouteOverride) × Has r config.routes
          × Matches path r
          × NoLonger path r config.routes
          × (route_for config path
              ≡ record (apply_to r.overrides (defaults config)) { label = r.path_prefix }))
unfolding route_for
route_for-cases config path = elim (Option-cases (longest_match path none config.routes)) [
  | inl e ↦ inl ((longest_match-none path none config.routes e).1, rw (e, route_for) refl)
  | inr (r, e) ↦
      let found = longest_match-Selects path none config.routes r e in
      let (here, fits) = in_list path r config.routes found.found in
      inr (r, here, fits, found.longest, rw (e, route_for) refl)
]

-- A request that names no policy, or one that the configuration does not know, gets the terms of the
-- route with the longest prefix of its path, and the label of that route; where no route matches it
-- gets the defaults.
pub policy_for-cases :
    (config : Config) (path : Text) (policy : Option Text)
    → ((name : Text) → policy ≡ some name → is_unknown_policy config name ≡ true)
    → (All (λ s. starts_with path s.path_prefix ≡ false) config.routes
        × (policy_for config path policy ≡ defaults config))
      ⊎ ((r : RouteOverride) × Has r config.routes
          × Matches path r
          × NoLonger path r config.routes
          × (policy_for config path policy
              ≡ record (apply_to r.overrides (defaults config)) { label = r.path_prefix }))
unfolding policy_for named_override is_unknown_policy
policy_for-cases config path none unknown = route_for-cases config path
policy_for-cases config path (some name) unknown =
    elim (Option-cases (lookup name config.policies)) [
      | inl q ↦ rw (q, policy_for, named_override) (route_for-cases config path)
      | inr (over, q) ↦ absurd (ground (arith, unknown name refl))
    ]

-- A policy name that the configuration knows decides the terms and the label alone, whatever the
-- path; one that it does not know is as good as none.
pub policy_for-named :
    (config : Config) (path other name : Text)
    → (policy_for config path (some name) ≡ (
        if is_unknown_policy config name
        then policy_for config path none
        else policy_for config other (some name)))
      × ((policy_for config path (some name)).label
          ≡ (if is_unknown_policy config name then (policy_for config path none).label else name))
unfolding policy_for named_override is_unknown_policy
policy_for-named config path other name = ground arith
