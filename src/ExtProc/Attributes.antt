-- ===== src/ExtProc/Attributes.antt =====
-- What Envoy's request attributes say of the client and of the route: src/ext_proc.rs. A `HashMap`
-- is an association list; a text is parsed as an address by the standard library, the parameter
-- `parse_ip`.
use sui_x402_verifier.Base.{
  ℕ, ◌≡◌, ◌≢◌, refl, ap, Option, none, some, false, [], ◌∷◌, ◌++◌, ◌==◌, if◌then◌else◌, Text, codes,
  Map, lookup, Lacks, arith,
}
use sui_x402_verifier.Base.Options.{◌>>=◌}
use sui_x402_verifier.RateLimit.Address.{IpAddr}
use sui_x402_verifier.ExtProc.Headers.{parse_policy_from_text_format}

-- A protobuf value: a string, or anything else.
pub data Value : Type 0 where
  string_value : Text → Value
  other_value : Value

abbrev pub Attributes : Type 0
Attributes = Map (Map Value)

-- The string under a field of a struct.
unfoldable pub string_field : Text → Map Value → Option Text
string_field name fields = elim (lookup name fields) [
  | some (string_value text) ↦ some text
  | some other_value ↦ none
  | none ↦ none
]

-- `attributes.values().find_map(..)`
unfoldable pub find_attribute : Text → Attributes → Option Text
unfolding string_field
find_attribute name [] = none
find_attribute name ((key, fields) ∷ rest) =
    let later = find_attribute name rest in
    elim (string_field name fields) [ some text ↦ some text | none ↦ later ]

-- `s.rsplit_once(sep)`, the part in front.
unfoldable pub before_last : Text → ℕ → Option Text
before_last [] sep = none
before_last (c ∷ s) sep =
    let later = before_last s sep in
    elim later [ some front ↦ some (c ∷ front) | none ↦ if c == sep then some [] else none ]

unfoldable pub trim_start_matches : Text → ℕ → Text
trim_start_matches [] p = []
trim_start_matches (c ∷ s) p = let rest = trim_start_matches s p in if c == p then rest else c ∷ s

unfoldable pub trim_end_matches : Text → ℕ → Text
trim_end_matches [] p = []
trim_end_matches (c ∷ s) p = elim (trim_end_matches s p) [
  | [] ↦ if c == p then [] else c ∷ []
  | d ∷ r ↦ c ∷ d ∷ r
]

abbrev or_whole : Option Text → Text → Text
or_whole none whole = whole
or_whole (some part) whole = part

module _ (parse_ip : Text → Option IpAddr) where
  unfoldable pub parse_host : Text → Option IpAddr
  unfolding before_last trim_start_matches trim_end_matches
  parse_host address = parse_ip (
      trim_end_matches (trim_start_matches (or_whole (before_last address b':') address) b'[') b']')

  unfoldable pub client_ip_from_attributes : Attributes → Option IpAddr
  unfolding find_attribute parse_host
  client_ip_from_attributes attributes = do
    address ← find_attribute (codes "source.address") attributes
    parse_host address

unfoldable pub policy_from_attributes : Attributes → Option Text
unfolding find_attribute parse_policy_from_text_format
policy_from_attributes attributes = do
  metadata ← find_attribute (codes "xds.route_metadata") attributes
  parse_policy_from_text_format metadata

before_last-none : (s : Text) (sep : ℕ) → Lacks sep s → before_last s sep ≡ none
unfolding before_last
before_last-none [] sep h = refl
before_last-none (c ∷ s) sep h = rw (before_last-none s sep h.1) (ground (arith, h.0))

before_last-append :
    (host port : Text) (sep : ℕ) → Lacks sep port → before_last (host ++ sep ∷ port) sep ≡ some host
unfolding before_last
before_last-append [] port sep h = rw (before_last-none port sep h) (ground arith)
before_last-append (c ∷ host) port sep h = rw (before_last-append host port sep h) refl

-- The bracket behind a text that has none is all that is trimmed from its end.
trim_end-bracket : (s : Text) (p : ℕ) → Lacks p s → trim_end_matches (s ++ p ∷ []) p ≡ s
unfolding trim_end_matches
trim_end-bracket [] p h = ground arith
trim_end-bracket (c ∷ []) p h = ground (arith, h.0)
trim_end-bracket (c ∷ d ∷ s) p h = rw (trim_end-bracket (d ∷ s) p h.1) refl

trim_end-lacking : (s : Text) (p : ℕ) → Lacks p s → trim_end_matches s p ≡ s
unfolding trim_end_matches
trim_end-lacking [] p h = refl
trim_end-lacking (c ∷ []) p h = ground (arith, h.0)
trim_end-lacking (c ∷ d ∷ s) p h = rw (trim_end-lacking (d ∷ s) p h.1) refl

trim_start-lacking : (s : Text) (p : ℕ) → Lacks p s → trim_start_matches s p ≡ s
unfolding trim_start_matches
trim_start-lacking [] p h = refl
trim_start-lacking (c ∷ s) p h = ground (arith, h.0)

-- The opening bracket goes, and the closing one.
bracketed :
    (host : Text)
    → Lacks b'[' host
    → Lacks b']' host
    → trim_end_matches (trim_start_matches (host ++ b']' ∷ []) b'[') b']' ≡ host
unfolding trim_start_matches
bracketed [] left right = trim_end-bracket [] b']' tt
bracketed (c ∷ host) left right = rw (different c left.0) (trim_end-bracket (c ∷ host) b']' right)
  where
    different : (c : ℕ) → c ≢ b'[' → (c == b'[') ≡ false
    different c h = ground (arith, h)

-- The peer's address is read back out of both forms that Envoy prints, `host:port` and
-- `[host]:port`: what is parsed is exactly the host, colons and all, when neither bracket stands
-- in the host and no colon in the port.
pub parse_host-forms :
    (parse_ip : Text → Option IpAddr) (host port : Text)
    → Lacks b'[' host
    → Lacks b']' host
    → Lacks b':' port
    → (parse_host parse_ip (host ++ b':' ∷ port) ≡ parse_ip host)
      × (parse_host parse_ip ((b'[' ∷ host ++ b']' ∷ []) ++ b':' ∷ port) ≡ parse_ip host)
unfolding parse_host trim_start_matches
parse_host-forms parse_ip host port left right colon = (
  rw (before_last-append host port b':' colon, trim_start-lacking host b'[' left)
      (ap parse_ip (trim_end-lacking host b']' right)),
  rw (before_last-append (b'[' ∷ host ++ b']' ∷ []) port b':' colon)
      (ap parse_ip (bracketed host left right)),
)
