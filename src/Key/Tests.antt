-- ===== src/Key/Tests.antt =====
-- The key format at concrete keys.
use regatta.Prelude.{◌≡◌, refl, [], ◌∷◌, ◌-◌, take, arith}
use regatta.Result.{ok, err, missing_key_header, malformed_key_header, unknown_key_version}
use regatta.Key.{Key, v1, type_user, key_v1_body_len, buffer, encode, decode_bytes, decode}
use regatta.Key.RoundTrip.{decode-encode, decode_bytes-encode}

-- The user key "ab".
abbrev ab : Key
ab = record { version = v1; key_type = type_user; key = 97 ∷ 98 ∷ [] }

abbrev empty_key : Key
empty_key = record ab { key = [] }

-- A short header.
decode-short : decode (v1 ∷ 0 ∷ []) ≡ err missing_key_header
unfolding decode
decode-short = refl

-- A header whose padding is not zero.
decode-malformed : decode (v1 ∷ 0 ∷ 7 ∷ 0 ∷ type_user ∷ 97 ∷ []) ≡ err malformed_key_header
unfolding decode
decode-malformed = refl

-- DecodeBytes does not look at the padding.
decode_bytes-malformed :
    decode_bytes (v1 ∷ 0 ∷ 7 ∷ 0 ∷ type_user ∷ 97 ∷ [])
    ≡ ok (record { version = v1; key_type = type_user; key = 97 ∷ [] })
unfolding decode_bytes
decode_bytes-malformed = refl

decode-unknown : decode (9 ∷ 0 ∷ 0 ∷ 0 ∷ type_user ∷ 97 ∷ []) ≡ err unknown_key_version
unfolding decode
decode-unknown = refl

decode-encode_example :
    decode (encode buffer ab []).0 ≡ ok (record ab { key = take (key_v1_body_len - 1) ab.key })
decode-encode_example = decode-encode ab refl

decode_bytes-encode_example : decode_bytes (encode buffer ab []).0 ≡ ok ab
decode_bytes-encode_example = decode_bytes-encode ab refl (λ e. ground (arith, e))
