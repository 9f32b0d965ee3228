-- ===== src/ContentTrust/Tokens.antt =====
-- About encodePointerToken, decodePointerToken and selectedActionName of contenttrust/resolver.go.
use browsertools.Prelude.{
  ℕ, ◌≡◌, refl, false, some, [], ◌∷◌, ◌++◌, Bytes, bytes, any, is_empty, ◌==◌, if◌then◌else◌, arith,
  Bool-cases, inl, inr,
}
use browsertools.Text.{has_prefix, without_prefix}
use browsertools.ContentTrust.{
  replace_byte, encode_pointer_token, decode_pointer_token, action_prefix, selected_action_name,
}

-- What the encoding makes of one byte.
encode-cons :
    (c : ℕ) (s : Bytes)
    → encode_pointer_token (c ∷ s) ≡ (
        if c == b'~'
        then bytes "~0" ++ encode_pointer_token s
        else if c == b'/'
        then bytes "~1" ++ encode_pointer_token s
        else c ∷ encode_pointer_token s)
unfolding encode_pointer_token replace_byte
encode-cons c s = ground arith

decode-plain :
    (c : ℕ) (s t : Bytes)
    → (c == b'~') ≡ false
    → decode_pointer_token s ≡ some t
    → decode_pointer_token (c ∷ s) ≡ some (c ∷ t)
unfolding decode_pointer_token
decode-plain c [] t h k = ground arith
decode-plain c (d ∷ s) t h k = ground arith

decode-tilde :
    (s t : Bytes)
    → decode_pointer_token s ≡ some t
    → decode_pointer_token (bytes "~0" ++ s) ≡ some (b'~' ∷ t)
unfolding decode_pointer_token
decode-tilde s t h = ground arith

decode-slash :
    (s t : Bytes)
    → decode_pointer_token s ≡ some t
    → decode_pointer_token (bytes "~1" ++ s) ≡ some (b'/' ∷ t)
unfolding decode_pointer_token
decode-slash s t h = ground arith

-- Every name is read back from its encoding.
pub decode-encode : (token : Bytes) → decode_pointer_token (encode_pointer_token token) ≡ some token
decode-encode [] = unfold encode_pointer_token replace_byte decode_pointer_token in refl
decode-encode (c ∷ s) = elim (Bool-cases (c == b'~')) [
  | inl e ↦
      ground (arith, encode-cons c s, decode-tilde (encode_pointer_token s) s (decode-encode s))
  | inr e ↦ elim (Bool-cases (c == b'/')) [
    | inl f ↦
        ground (arith, encode-cons c s, decode-slash (encode_pointer_token s) s (decode-encode s))
    | inr f ↦
        ground
          (arith, encode-cons c s, decode-plain c (encode_pointer_token s) s e (decode-encode s))
  ]
]

encode-no_slash : (s : Bytes) → any (λ c. c == b'/') (encode_pointer_token s) ≡ false
encode-no_slash [] = unfold encode_pointer_token replace_byte in refl
encode-no_slash (c ∷ s) = ground (arith, encode-cons c s, encode-no_slash s)

encode-is_empty : (c : ℕ) (s : Bytes) → is_empty (encode_pointer_token (c ∷ s)) ≡ false
encode-is_empty c s = ground (arith, encode-cons c s)

-- An operation that refers to an action by the encoding of its name, whatever bytes it has, runs the
-- action of that name.
pub selected_action_name-encode :
    (c : ℕ) (s : Bytes)
    → selected_action_name [] (action_prefix ++ encode_pointer_token (c ∷ s)) ≡ some (c ∷ s)
unfolding selected_action_name has_prefix without_prefix
selected_action_name-encode c s =
    ground (arith, encode-no_slash (c ∷ s), encode-is_empty c s, decode-encode (c ∷ s))
