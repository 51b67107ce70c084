-- ===== src/ExtProc/Headers.antt =====
-- How the external processor reads a request and builds a reply: src/ext_proc.rs.
use sui_x402_verifier.Base.{
  max, Bool, false, ◌&&◌, ◌||◌, Option, none, some, List, [], ◌∷◌, ◌++◌, ltb, leb, ◌==◌,
  if◌then◌else◌, Text, codes, is_empty, starts_with, to_ascii_lowercase, Map, lookup, insert,
  show_u64, parse_uint, map,
}
use sui_x402_verifier.Base.Options.{◌>>=◌}
use sui_x402_verifier.Auth.{Meter, free_meter, session_meter, unknown_meter}
use sui_x402_verifier.Auth.Headers.{get_header}
use sui_x402_verifier.ExtProc.{RawHeader, Reply, immediate_response}

abbrev header_value : RawHeader → Text
header_value h = if is_empty h.raw_value then h.value else h.raw_value

-- `header_map`, from the map so far: a later header takes the place of an earlier one.
unfoldable pub header_map : Map Text → List RawHeader → Map Text
header_map m [] = m
header_map m (h ∷ hs) = header_map (insert (map to_ascii_lowercase h.key) (header_value h) m) hs

abbrev or_text : Option Text → Text → Text
or_text none d = d
or_text (some t) d = t

-- `map.get(name).cloned().unwrap_or_default()`
abbrev pub value_or_empty : Map Text → Text → Text
value_or_empty map name = or_text (lookup name map) []

-- `get(first).or_else(|| get(second))`
abbrev first_of : Map Text → Text → Text → Option Text
first_of map first second = elim (lookup first map) [ some v ↦ some v | none ↦ lookup second map ]

abbrev unless_empty : Option Text → Text → Text
unless_empty none d = d
unless_empty (some t) d = if is_empty t then d else t

unfoldable pub resource_url : Map Text → Text → Text
resource_url map path =
    let authority = or_text (first_of map (codes "x-forwarded-host") (codes ":authority")) [] in
    let scheme =
      unless_empty (first_of map (codes "x-forwarded-proto") (codes ":scheme")) (codes "https") in
    if is_empty authority then path else scheme ++ codes "://" ++ authority ++ path

-- What is left of a text behind a prefix that it has.
unfoldable pub strip_prefix : Text → Text → Option Text
strip_prefix s [] = some s
strip_prefix [] (p ∷ ps) = none
strip_prefix (c ∷ s) (p ∷ ps) = let rest = strip_prefix s ps in if c == p then rest else none

-- The text behind the first separator, if there is one.
unfoldable pub after_first : Text → Text → Option Text
unfolding strip_prefix
after_first separator [] = none
after_first separator (c ∷ s) =
    let later = after_first separator s in
    elim (strip_prefix (c ∷ s) separator) [ some rest ↦ some rest | none ↦ later ]

-- The text up to the first separator, if there is one.
unfoldable pub before_first : Text → Text → Option Text
unfolding strip_prefix
before_first separator [] = none
before_first separator (c ∷ s) =
    let later = before_first separator s in
    elim (strip_prefix (c ∷ s) separator) [
      | some rest ↦ some []
      | none ↦ elim later [ none ↦ none | some front ↦ some (c ∷ front) ]
    ]

-- `text.split(separator).nth(1)`
unfoldable pub second_part : Text → Text → Option Text
unfolding after_first before_first
second_part separator text = elim (after_first separator text) [
  | none ↦ none
  | some rest ↦ elim (before_first separator rest) [ none ↦ some rest | some part ↦ some part ]
]

abbrev quote : Text
quote = b'"' ∷ []

abbrev some_nonempty : Text → Option Text
some_nonempty value = if is_empty value then none else some value

-- `parse_policy_from_text_format`
unfoldable pub parse_policy_from_text_format : Text → Option Text
unfolding second_part after_first before_first
parse_policy_from_text_format text = do
  after_key ← second_part (codes "key: " ++ quote ++ codes "x402_policy" ++ quote) text
  after_marker ← second_part (codes "string_value:") after_key
  rest ← after_first quote after_marker
  value ← before_first quote rest
  some_nonempty value

-- `is_success`: the status is a `u16` from 200 to 299.
unfoldable pub is_success : Text → Bool
is_success status = elim (parse_uint 65535 status) [
  | none ↦ false
  | some code ↦ leb 200 code && ltb code 300
]

-- `ct.starts_with("application/grpc")` on the content type, if there is one.
unfoldable pub is_grpc_request : Map Text → Bool
is_grpc_request map = elim (get_header map (codes "content-type")) [
  | none ↦ false
  | some ct ↦ starts_with ct (codes "application/grpc")
]

unfoldable pub grpc_timeout_for : Meter → Map Text → Option Text
unfolding is_grpc_request
grpc_timeout_for (session_meter remaining quota expires_in_secs) map =
    if is_grpc_request map then some (show_u64 (max expires_in_secs 1) ++ codes "S") else none
grpc_timeout_for (free_meter remaining limit reset_secs) map = none
grpc_timeout_for unknown_meter map = none

-- A phase's name and its duration as printed.
abbrev pub phase : Text → Text → Text
phase name ms = name ++ codes ";dur=" ++ ms

abbrev is_grpc_path : Text → Bool
is_grpc_path path = starts_with path (codes "/sui.rpc.v2.") || starts_with path (codes "/grpc.")

-- `settlement_unavailable`; `body` is the error as `serde_json` prints it.
unfoldable pub settlement_unavailable : Text → Text → Reply
settlement_unavailable body path =
    if is_grpc_path path
    then immediate_response 200
        ((codes "retry-after", codes "30")
          ∷ (codes "content-type", codes "application/grpc")
          ∷ (codes "grpc-status", codes "14")
          ∷ (codes "grpc-message", codes "settlement%20unavailable")
          ∷ [])
        body
    else immediate_response 503
        ((codes "retry-after", codes "30") ∷ (codes "content-type", codes "application/json") ∷ [])
        body
