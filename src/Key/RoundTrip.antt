-- ===== src/Key/RoundTrip.antt =====
-- What Encode writes into a buffer, and decoding it with either decoder.
use regatta.Prelude.{◌-◌, ◌≡◌, ◌≢◌, ◌⊎◌, inl, [], ◌∷◌, ◌++◌, length, take, arith}
use regatta.Bytes.{Bytes}
use regatta.Result.{ok}
use regatta.Key.{
  Key, v1, unknown_version, type_unknown, key_v1_body_len, v1_len, buffer, encode, decode_bytes,
  decode,
}
use mathlib.Core.List.{append_assoc}

-- Encode appends the header, the type and the key to a buffer, and returns V1Len of the key.
pub encode-buffer :
    (k : Key) (dst : Bytes)
    → (k.version ≡ v1) ⊎ (k.version ≡ unknown_version)
    → encode buffer k dst
      ≡ (dst ++ (v1 ∷ 0 ∷ 0 ∷ 0 ∷ k.key_type ∷ k.key), ok (v1_len (length k.key)))
unfolding encode v1_len
encode-buffer k dst h = ground (arith, append_assoc dst (v1 ∷ 0 ∷ 0 ∷ 0 ∷ []) (k.key_type ∷ k.key))

-- Decoder.Decode after Encode gives a key of version V1 back, cut to the 1019 bytes that a stored body holds.
pub decode-encode :
    (k : Key)
    → k.version ≡ v1
    → decode (encode buffer k []).0 ≡ ok (record k { key = take (key_v1_body_len - 1) k.key })
unfolding decode
decode-encode k h = rw (encode-buffer k [] (inl h)) (ground arith)

raw_key :
    (k : Key)
    → k.version ≡ v1
    → k.key ≢ []
    → decode_bytes (v1 ∷ 0 ∷ 0 ∷ 0 ∷ k.key_type ∷ k.key) ≡ ok k
unfolding decode_bytes
raw_key k h ne = ground arith

-- DecodeBytes after Encode gives back every key of version V1 that is not empty, of any length.
pub decode_bytes-encode :
    (k : Key) → k.version ≡ v1 → k.key ≢ [] → decode_bytes (encode buffer k []).0 ≡ ok k
decode_bytes-encode k h ne = rw (encode-buffer k [] (inl h)) (raw_key k h ne)

-- DecodeBytes after Encode of an empty key of version V1 loses the type of the key.
pub decode_bytes-encode_empty :
    (k : Key)
    → k.version ≡ v1
    → k.key ≡ []
    → decode_bytes (encode buffer k []).0 ≡ ok (record k { key_type = type_unknown })
unfolding decode_bytes
decode_bytes-encode_empty k h e = rw (encode-buffer k [] (inl h), e) (ground arith)
