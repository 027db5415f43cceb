-- ===== src/Key.antt =====
-- storage/table/key: the internal key format. A stored key is a header of four bytes whose first
-- byte is the version, a byte for the key type and the key itself.
-- An io.Reader is the bytes that it still yields before io.EOF; an io.Writer is a parameter.
pub mod RoundTrip
mod Tests
use regatta.Prelude.{
  ℕ, zero, suc, ◌+◌, ◌-◌, ◌%◌, Bool, true, false, not, ◌||◌, ◌&&◌, Option, none, some, List, [],
  ◌∷◌, ◌++◌, length, take, drop, replicate, ltb, ◌==◌, if◌then◌else◌,
}
use regatta.Bytes.{Bytes}
use regatta.Result.{
  Error, Result, ok, err, panic, unknown_key_version, missing_key_header, malformed_key_header,
  missing_key_type, ◌>>=◌,
}

-- The constants TypeUnknown, TypeUser and TypeSystem.
abbrev pub type_unknown : ℕ
type_unknown = 0

abbrev pub type_user : ℕ
type_user = 1

abbrev pub type_system : ℕ
type_system = 2

abbrev pub unknown_version : ℕ
unknown_version = 0

abbrev pub v1 : ℕ
v1 = 1

abbrev pub latest_version : ℕ
latest_version = v1

abbrev pub key_header_len : ℕ
key_header_len = 4

abbrev pub v1_key_len : ℕ
v1_key_len = 1024

abbrev pub latest_version_len : ℕ
latest_version_len = v1_key_len

abbrev pub key_v1_body_len : ℕ
key_v1_body_len = v1_key_len - key_header_len

-- V1Len: the length of the stored form of a user key.
unfoldable pub v1_len : ℕ → ℕ
v1_len userkey_len = key_header_len + 1 + userkey_len

-- V1MaxKey
unfoldable pub v1_max_key : Bytes
v1_max_key = replicate (key_v1_body_len - 1) 255

-- V1MinKey
unfoldable pub v1_min_key : Bytes
v1_min_key = replicate (key_v1_body_len - 1) 0

pub record Key : Type 0 where
  pub version : ℕ
  pub key_type : ℕ
  pub key : Bytes

-- reset, and Go's zero value Key{}
abbrev pub zero_key : Key
zero_key = record { version = unknown_version; key_type = type_unknown; key = [] }

pub record KeyV1 : Type 0 where
  pub key_type : ℕ
  pub key : Bytes

-- io.Writer: Write returns the number of bytes written, or an error.
pub record Writer (W : Type 0) : Type 0 where
  pub write : W → Bytes → W × Result ℕ

-- bytes.Buffer and the buffers of bpool: Write appends everything and does not fail.
abbrev pub buffer : Writer Bytes
buffer = record { write = λ b p. (b ++ p, ok (length p)) }

module _ {W : Type 0} (w : Writer W) where
  -- keyV1.Encode
  unfoldable pub v1_encode : KeyV1 → W → W × Result ℕ
  v1_encode k dst = w.write dst (k.key_type ∷ k.key)

  abbrev after_header : W × Result ℕ → W × Result ℕ
  after_header (dst, ok n) = (dst, ok (key_header_len + n))
  after_header (dst, err e) = (dst, err e)
  after_header (dst, panic) = (dst, panic)

  encode_body : Key → W × Result ℕ → W × Result ℕ
  unfolding v1_encode
  encode_body key (dst, ok n) =
      if key.version == v1
      then after_header (v1_encode (record { key_type = key.key_type; key = key.key }) dst)
      else (dst, err unknown_key_version)
  encode_body key (dst, err e) = (dst, err e)
  encode_body key (dst, panic) = (dst, panic)

  -- An unknown version becomes the latest one.
  abbrev with_version : Key → Key
  with_version key =
      if key.version == unknown_version then record key { version = latest_version } else key

  -- Encoder.Encode. The count that comes with an error is left out, since no caller reads it.
  unfoldable pub encode : Key → W → W × Result ℕ
  unfolding encode_body
  encode key dst =
      let key' = with_version key in encode_body key' (w.write dst (key'.version ∷ 0 ∷ 0 ∷ 0 ∷ []))

-- v1DecodeRaw
unfoldable pub v1_decode_raw : Bytes → KeyV1
v1_decode_raw (t ∷ x ∷ rest) = record { key_type = t; key = x ∷ rest }
v1_decode_raw _ = record { key_type = type_unknown; key = [] }

-- DecodeBytes, on the header taken apart
decode_body : Bytes → Result Key
unfolding v1_decode_raw
decode_body (v ∷ a ∷ b ∷ c ∷ body) =
    let k = v1_decode_raw body in
    if v == v1
    then ok (record { version = v1; key_type = k.key_type; key = k.key })
    else err unknown_key_version
decode_body _ = err missing_key_header

unfoldable pub decode_bytes : Bytes → Result Key
unfolding decode_body
decode_bytes raw =
    if ltb (length raw) key_header_len then err missing_key_header else decode_body raw

-- keyV1.Decode, on the bytes that were read
v1_of_bytes : Bytes → Result KeyV1
v1_of_bytes [] = err missing_key_type
v1_of_bytes (t ∷ k) = ok (record { key_type = t; key = k })

-- keyV1.Decode: io.ReadAll of an io.LimitReader
unfoldable pub v1_decode : Bytes → Result KeyV1
unfolding v1_of_bytes
v1_decode reader = v1_of_bytes (take key_v1_body_len reader)

-- Decoder.Decode
unfoldable pub decode : Bytes → Result Key
unfolding v1_decode
decode (v ∷ a ∷ b ∷ c ∷ body) =
    if not (a == 0) || not (b == 0) || not (c == 0)
    then err malformed_key_header
    else if v == v1
    then v1_decode body >>= (λ k. ok (record { version = v1; key_type = k.key_type; key = k.key }))
    else err unknown_key_version
decode _ = err missing_key_header
