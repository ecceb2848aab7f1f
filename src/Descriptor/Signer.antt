-- ===== src/Descriptor/Signer.antt =====
-- ParseSignerString of src/descriptor.cpp, with its regular expression
-- \[([0-9a-f]{8})(.+)\](.+?)(/[01]/\*)? written out.
use libnunchuk.Base.{
  ℕ, zero, suc, [], ◌∷◌, ◌++◌, Option, none, some, ◌==◌, leb, Bool, true, false, not, ◌&&◌, ◌||◌,
  if◌then◌else◌,
}
use libnunchuk.Base.Int.{pos}
use libnunchuk.Base.Text.{Text, codes, text_eq}
use libnunchuk.Types.{SingleSigner, Result, ok, throw, invalid_parameter}

-- [0-9a-f]
abbrev pub is_hex_digit : ℕ → Bool
is_hex_digit c = (leb b'0' c && leb c b'9') || (leb b'a' c && leb c b'f')

-- `.`, which takes no end of a line
abbrev pub is_dot : ℕ → Bool
is_dot c = not (c == 10) && not (c == 13)

unfoldable pub all_dots : Text → Bool
all_dots [] = true
all_dots (c ∷ s) = is_dot c && all_dots s

abbrev pub add_front : ℕ → Option (Text × Text) → Option (Text × Text)
add_front c none = none
add_front c (some (front, back)) = some (c ∷ front, back)

-- `[0-9a-f]{n}` and what stands behind.
unfoldable pub take_hex : ℕ → Text → Option (Text × Text)
take_hex zero s = some ([], s)
take_hex (suc n) [] = none
take_hex (suc n) (c ∷ s) =
    let rest = take_hex n s in if is_hex_digit c then add_front c rest else none

-- The texts before and behind a `]` that has something behind it, if this is the first character.
abbrev pub split_here : ℕ → Text → Option (Text × Text)
split_here c [] = none
split_here c (d ∷ s) = if c == b']' then some ([], d ∷ s) else none

abbrev pub or_else : Option (Text × Text) → Option (Text × Text) → Option (Text × Text)
or_else none o = o
or_else (some p) o = some p

-- `(.*)\](.+)`: the greedy group takes all up to the last `]` that has something behind it.
unfoldable pub split_last : Text → Option (Text × Text)
split_last [] = none
split_last (c ∷ s) = or_else (add_front c (split_last s)) (split_here c s)

-- `(.+)\](.+)`
abbrev pub split_origin : Text → Option (Text × Text)
split_origin [] = none
split_origin (c ∷ s) = add_front c (split_last s)

-- `(.+?)(/[01]/\*)?` up to the end: the key, and whether the optional group took part.
unfoldable pub split_key : Text → Text × Bool
unfolding text_eq
split_key [] = ([], false)
split_key (c ∷ s) =
    let rest = split_key s in
    if text_eq s (codes "/0/*") || text_eq s (codes "/1/*")
    then (c ∷ [], true)
    else (c ∷ rest.0, rest.1)

abbrev pub signer_of : Text → Text → Text × Bool → SingleSigner
signer_of fingerprint path (key, ranged) = record {
  name = fingerprint;
  xpub = if ranged then key else [];
  public_key = if ranged then [] else key;
  derivation_path = codes "m" ++ path;
  master_fingerprint = fingerprint;
  master_signer_id = [];
  last_health_check = pos 0;
}

abbrev pub parse_behind : Text → Option (Text × Text) → Result SingleSigner
parse_behind fingerprint none = throw invalid_parameter
parse_behind fingerprint (some (path, key)) =
    if all_dots path && all_dots key
    then ok (signer_of fingerprint path (split_key key))
    else throw invalid_parameter

abbrev pub parse_origin : Option (Text × Text) → Result SingleSigner
parse_origin none = throw invalid_parameter
parse_origin (some (fingerprint, rest)) = parse_behind fingerprint (split_origin rest)

unfoldable pub parse_signer_string : Text → Result SingleSigner
unfolding take_hex split_last all_dots split_key
parse_signer_string [] = throw invalid_parameter
parse_signer_string (c ∷ s) =
    if c == b'[' then parse_origin (take_hex 8 s) else throw invalid_parameter
