-- ===== src/ContentTrust.antt =====
-- contenttrust/resolver.go: how an operation names the action that it runs.
pub mod Tokens
use browsertools.Prelude.{
  ℕ, Bool, true, false, ◌||◌, ◌&&◌, not, Option, none, some, List, [], ◌∷◌, ◌++◌, Bytes, bytes, any,
  is_empty, ◌==◌, if◌then◌else◌,
}
use browsertools.Text.{has_prefix, without_prefix}

-- strings.ReplaceAll(s, old, new) for an `old` of one byte.
unfoldable pub replace_byte : ℕ → Bytes → Bytes → Bytes
replace_byte old new [] = []
replace_byte old new (c ∷ s) =
    let rest = replace_byte old new s in if c == old then new ++ rest else c ∷ rest

unfoldable pub encode_pointer_token : Bytes → Bytes
unfolding replace_byte
encode_pointer_token token = replace_byte b'/' (bytes "~1") (replace_byte b'~' (bytes "~0") token)

-- The byte that `~` and the next byte stand for.
escaped_byte : ℕ → Option ℕ
escaped_byte c = if c == b'0' then some b'~' else if c == b'1' then some b'/' else none

put_first : Option ℕ → Option Bytes → Option Bytes
put_first none rest = none
put_first (some c) none = none
put_first (some c) (some rest) = some (c ∷ rest)

-- decodePointerToken; `none` where `~` is not followed by `0` or `1`.
unfoldable pub decode_pointer_token : Bytes → Option Bytes
unfolding escaped_byte put_first
decode_pointer_token [] = some []
decode_pointer_token (c ∷ []) = if c == b'~' then none else some (c ∷ [])
decode_pointer_token (c ∷ d ∷ s) =
    let plain = decode_pointer_token (d ∷ s) in
    let escaped = decode_pointer_token s in
    if c == b'~' then put_first (escaped_byte d) escaped else put_first (some c) plain

abbrev pub action_prefix : Bytes
action_prefix = bytes "#/actions/"

-- The name that a reference gives.
unfoldable pub referenced_action : Bytes → Option Bytes
unfolding decode_pointer_token
referenced_action reference =
    if not (has_prefix reference action_prefix)
    then none
    else let token = without_prefix reference action_prefix in
      if is_empty token || any (λ c. c == b'/') token
      then none
      else elim (decode_pointer_token token) [
        | none ↦ none
        | some decoded ↦ if is_empty decoded then none else some decoded
      ]

-- selectedActionName: the operation's id, or the name that its reference gives.
unfoldable pub selected_action_name : Bytes → Bytes → Option Bytes
unfolding referenced_action
selected_action_name operation_id operation_ref =
    if is_empty operation_id then referenced_action operation_ref else some operation_id
