-- ===== src/Tests/Codecs.antt =====
-- Simple codecs that keep the laws of the ones that the token code calls.
use focus_flow.Common.{
  ℕ, zero, suc, ◌+◌, ◌≡◌, refl, ap, sym, ◌∙◌, inl, inr, String, false, ◌&&◌, Option, none, some, [],
  ◌∷◌, arith, str_eq, str_eq_iff, if◌then◌else◌, ◌==◌, Bool-cases, is_empty,
}
use Prim.Native.Char.{code}
use focus_flow.Model.{Uuid}
use focus_flow.Model.Int.{ℤ, pos, negsuc}
use focus_flow.Auth.{Bytes, Library, TokenClaims, no_bytes}
use focus_flow.Auth.Token.{Laws, WithoutDot}
use focus_flow.Tests.Sample.{text}

-- So many `a`, and a `b`.
abbrev one_byte : ℕ → String → String
one_byte zero s = String.◌∷◌ "b" s
one_byte (suc n) s = String.◌∷◌ "a" (one_byte n s)

abbrev pub encode : Bytes → String
encode [] = String.[]
encode (n ∷ ns) = one_byte n (encode ns)

abbrev prepend : ℕ → Option Bytes → Option Bytes
prepend n none = none
prepend n (some ns) = some (n ∷ ns)

abbrev decode_from : ℕ → String → Option Bytes
decode_from k String.[] = if k == 0 then some [] else none
decode_from k (String.◌∷◌ c s) =
    let more = decode_from (k + 1) s in
    let rest = decode_from 0 s in if code c == 97 then more else prepend k rest

decode_from-one_byte :
    (k n : ℕ) (s : String) → decode_from k (one_byte n s) ≡ prepend (k + n) (decode_from 0 s)
decode_from-one_byte k zero s = ground arith
decode_from-one_byte k (suc n) s = ground (arith, decode_from-one_byte (k + 1) n s)

decode-encode : (b : Bytes) → decode_from 0 (encode b) ≡ some b
decode-encode [] = refl
decode-encode (n ∷ ns) = ground (arith, decode_from-one_byte 0 n (encode ns), decode-encode ns)

one_byte-WithoutDot : (n : ℕ) (s : String) → WithoutDot s → WithoutDot (one_byte n s)
one_byte-WithoutDot zero s h = ((λ e. omega arith), h)
one_byte-WithoutDot (suc n) s h = ((λ e. omega arith), one_byte-WithoutDot n s h)

encode-WithoutDot : (b : Bytes) → WithoutDot (encode b)
encode-WithoutDot [] = tt
encode-WithoutDot (n ∷ ns) = one_byte-WithoutDot n (encode ns) (encode-WithoutDot ns)

one_byte_full : (n : ℕ) (s : String) → is_empty (one_byte n s) ≡ false
one_byte_full zero s = refl
one_byte_full (suc n) s = refl

encode_full : (b : Bytes) → no_bytes b ≡ false → is_empty (encode b) ≡ false
encode_full [] h = absurd (ground arith)
encode_full (n ∷ ns) h = one_byte_full n (encode ns)

abbrev more : Option ℕ → Option ℕ
more none = none
more (some n) = some (n + 1)

abbrev pub parse_text : String → Option Uuid
parse_text String.[] = some 0
parse_text (String.◌∷◌ c s) = more (parse_text s)

pub parse_text_lem : (n : Uuid) → parse_text (text n) ≡ some n
parse_text_lem zero = refl
parse_text_lem (suc n) = ground (arith, parse_text_lem n)

-- The claims of the one user, as two numbers.
abbrev numbers : ℤ → ℤ → Option Bytes
numbers (pos i) (pos e) = some (i ∷ e ∷ [])
numbers _ _ = none

abbrev marshal_claims : TokenClaims → Option Bytes
marshal_claims c =
    if str_eq c.subject "aaaaaaa" && str_eq c.username "ada"
    then numbers c.issued_at c.expires_at
    else none

abbrev unmarshal_claims : Bytes → Option TokenClaims
unmarshal_claims (i ∷ e ∷ []) =
    some (record { subject = "aaaaaaa"; username = "ada"; issued_at = pos i; expires_at = pos e })
unmarshal_claims _ = none

unmarshal-numbers :
    (i e : ℤ) (b : Bytes)
    → numbers i e ≡ some b
    → unmarshal_claims b
      ≡ some (record { subject = "aaaaaaa"; username = "ada"; issued_at = i; expires_at = e })
unmarshal-numbers (pos i) (pos e) b h = ground arith
unmarshal-numbers (pos i) (negsuc e) b h = absurd (ground arith)
unmarshal-numbers (negsuc i) e b h = absurd (ground arith)

numbers_full : (i e : ℤ) (b : Bytes) → numbers i e ≡ some b → no_bytes b ≡ false
numbers_full (pos i) (pos e) b h = ground arith
numbers_full (pos i) (negsuc e) b h = absurd (ground arith)
numbers_full (negsuc i) e b h = absurd (ground arith)

unmarshal-marshal :
    (c : TokenClaims) (b : Bytes) → marshal_claims c ≡ some b → unmarshal_claims b ≡ some c
unmarshal-marshal c b h = elim (Bool-cases (str_eq c.subject "aaaaaaa")) [
  | inr other ↦ absurd (ground arith)
  | inl subject ↦ elim (Bool-cases (str_eq c.username "ada")) [
    | inr other ↦ absurd (ground arith)
    | inl name ↦
        let s = (str_eq_iff c.subject "aaaaaaa").0 subject in
        let u = (str_eq_iff c.username "ada").0 name in
        unmarshal-numbers c.issued_at c.expires_at b (ground arith)
        ∙ ap
            (λ x. some (record {
              subject = x;
              username = "ada";
              issued_at = c.issued_at;
              expires_at = c.expires_at;
            }))
            (sym s)
        ∙ ap
            (λ y. some (record {
              subject = c.subject;
              username = y;
              issued_at = c.issued_at;
              expires_at = c.expires_at;
            }))
            (sym u)
  ]
]

marshal_full : (c : TokenClaims) (b : Bytes) → marshal_claims c ≡ some b → no_bytes b ≡ false
marshal_full c b h = elim (Bool-cases (str_eq c.subject "aaaaaaa" && str_eq c.username "ada")) [
  | inr other ↦ absurd (ground arith)
  | inl same ↦ numbers_full c.issued_at c.expires_at b (ground arith)
]

abbrev pub codes : String → Bytes → Bytes
codes String.[] salt = salt
codes (String.◌∷◌ c s) salt = code c ∷ codes s salt

abbrev pub simple : Library
simple = record {
  hash_password = codes;
  hmac = λ key payload. 1 ∷ payload;
  encode64 = encode;
  decode64 = decode_from 0;
  marshal = marshal_claims;
  unmarshal = unmarshal_claims;
  id_string = text;
  parse_id = parse_text;
}

pub simple-Laws : Laws simple
simple-Laws = record {
  decode = decode-encode;
  without_dot = encode-WithoutDot;
  non_empty = encode_full;
  unmarshal = unmarshal-marshal;
  marshal_bytes = marshal_full;
  hmac_bytes = λ key payload. refl;
  parse = parse_text_lem;
}
