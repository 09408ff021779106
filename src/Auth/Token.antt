-- ===== src/Auth/Token.antt =====
-- Session tokens, from `issue` to `verify_token` and `refresh`.
use focus_flow.Common.{
  ◌<◌, ◌≡◌, ◌↔◌, refl, ap, inl, inr, String, true, false, Option, none, some, List, [], ◌∷◌, arith,
  split, is_empty, Bool-cases, Option-cases,
}
use Prim.Native.Char.{code}
use Prim.Native.String.{◌++◌ as append}
use Prim.Native.String.append.{nil as nil_append, cons as cons_append}
use focus_flow.Model.{Uuid, nil_id, Time, User, Session}
use focus_flow.Auth.{
  Bytes, Library, Service, TokenClaims, IssuedSession, ok, no_bytes, bytes_eq, add, unix, from_unix,
  issue, refresh, verify_token, valid_signature, check_claims, check_payload, check_parts,
}

abbrev pub WithoutDot : String → Type 0
WithoutDot String.[] = Unit
WithoutDot (String.◌∷◌ c s) = (¬ (code c ≡ 46)) × WithoutDot s

-- What the token code relies on of the codecs.
pub record Laws (lib : Library) : Type 0 where
  pub decode : (b : Bytes) → lib.decode64 (lib.encode64 b) ≡ some b
  pub without_dot : (b : Bytes) → WithoutDot (lib.encode64 b)
  pub non_empty : (b : Bytes) → no_bytes b ≡ false → is_empty (lib.encode64 b) ≡ false
  pub unmarshal : (c : TokenClaims) (b : Bytes) → lib.marshal c ≡ some b → lib.unmarshal b ≡ some c
  pub marshal_bytes : (c : TokenClaims) (b : Bytes) → lib.marshal c ≡ some b → no_bytes b ≡ false
  pub hmac_bytes : (key payload : Bytes) → no_bytes (lib.hmac key payload) ≡ false
  pub parse : (id : Uuid) → lib.parse_id (lib.id_string id) ≡ some id

split_one : (s : String) → WithoutDot s → split 46 s ≡ s ∷ []
split_one String.[] h = refl
split_one (String.◌∷◌ c s) (h, hs) = ground (arith, split_one s hs)

split_two :
    (s t : String) → WithoutDot s → WithoutDot t → split 46 (append s (append "." t)) ≡ s ∷ t ∷ []
split_two String.[] t hs ht =
    rw (nil_append (append "." t), cons_append _ String.[] t, nil_append t, split_one t ht) refl
split_two (String.◌∷◌ c s) t (h, hs) ht =
    rw (cons_append c s (append "." t)) (ground (arith, split_two s t hs ht))

pub bytes_eq_iff : (a b : Bytes) → (bytes_eq a b ≡ true) ↔ (a ≡ b)
bytes_eq_iff [] [] = (λ h. refl, λ h. refl)
bytes_eq_iff [] (y ∷ ys) = (λ h. cc, λ h. cc)
bytes_eq_iff (x ∷ xs) [] = (λ h. cc, λ h. cc)
bytes_eq_iff (x ∷ xs) (y ∷ ys) =
    let rest = bytes_eq_iff xs ys in (λ h. ground (arith, rest.0), λ h. ground (arith, rest.1))

module _ (lib : Library) (laws : Laws lib) (service : Service) where
  claims_of : Time → User → TokenClaims
  claims_of now user = record {
    subject = lib.id_string user.id;
    username = user.username;
    issued_at = unix now;
    expires_at = unix (add now service.ttl);
  }

  issued_token :
      (now : Time) (user : User) (issued : IssuedSession)
      → issue lib service now user ≡ ok issued
      → (payload : Bytes) × (lib.marshal (claims_of now user) ≡ some payload)
        × (issued.token
            ≡ append
                (lib.encode64 payload)
                (append "." (lib.encode64 (lib.hmac service.secret payload))))
  unfolding issue claims_of
  issued_token now user issued h = ground arith

  accepted_claims :
      (now later : Time) (user : User)
      → is_empty user.username ≡ false
      → later < from_unix (unix (add now service.ttl))
      → check_claims lib later (claims_of now user)
        ≡ ok (record { user = user; expires_at = from_unix (unix (add now service.ttl)) })
  unfolding claims_of
  accepted_claims now later user named before = ground (arith, laws.parse user.id)

  own_signature :
      (payload : Bytes)
      → valid_signature lib service payload (lib.hmac service.secret payload) ≡ true
  unfolding valid_signature
  own_signature payload =
      (let signature = lib.hmac service.secret payload in (bytes_eq_iff signature signature).1 refl)

  -- A token that issue makes for a user with a name is accepted by VerifyToken at every time
  -- before its expiry in whole seconds, with that user and expiry, if the codecs keep their laws.
  pub verify_token-issue :
      (now later : Time) (user : User) (issued : IssuedSession)
      → issue lib service now user ≡ ok issued
      → is_empty user.username ≡ false
      → later < from_unix (unix (add now service.ttl))
      → verify_token lib service later issued.token
        ≡ ok (record { user = user; expires_at = from_unix (unix (add now service.ttl)) })
  unfolding verify_token
  verify_token-issue now later user issued made named before =
      let (payload, encoded, token) = issued_token now user issued made in
      let signature = lib.hmac service.secret payload in
      let first =
        laws.non_empty payload (laws.marshal_bytes (claims_of now user) payload encoded) in
      let second = laws.non_empty signature (laws.hmac_bytes service.secret payload) in
      let parts =
        split_two (lib.encode64 payload) (lib.encode64 signature) (laws.without_dot payload)
          (laws.without_dot signature) in
      rw
        (
          token,
          parts,
          first,
          second,
          laws.decode payload,
          laws.decode signature,
          own_signature payload,
          laws.unmarshal (claims_of now user) payload encoded,
        )
        (accepted_claims now later user named before)

  -- What a token stands for: its parts are a payload and the signature of that payload with the
  -- service's secret, and the payload's claims are the session's, not expired.
  abbrev pub Signed : Time → String → Session → Type 0
  Signed now token session =
      (first second : String) × (payload : Bytes) × (claims : TokenClaims) × (split 46 token
        ≡ first ∷ second ∷ [])
      × (lib.decode64 first ≡ some payload)
      × (lib.decode64 second ≡ some (lib.hmac service.secret payload))
      × (lib.unmarshal payload ≡ some claims)
      × (lib.parse_id claims.subject ≡ some session.user.id)
      × (claims.username ≡ session.user.username)
      × (is_empty session.user.username ≡ false)
      × (from_unix claims.expires_at ≡ session.expires_at)
      × (now < session.expires_at)

  accepted_are :
      (now : Time) (claims : TokenClaims) (session : Session)
      → check_claims lib now claims ≡ ok session
      → (lib.parse_id claims.subject ≡ some session.user.id)
        × (claims.username ≡ session.user.username)
        × (is_empty session.user.username ≡ false)
        × (from_unix claims.expires_at ≡ session.expires_at)
        × (now < session.expires_at)
  accepted_are now claims session h = ground arith

  accepted_payload :
      (now : Time) (a b : Option Bytes) (session : Session)
      → check_payload lib service now a b ≡ ok session
      → (payload : Bytes) × (claims : TokenClaims) × (a ≡ some payload)
        × (b ≡ some (lib.hmac service.secret payload))
        × (lib.unmarshal payload ≡ some claims)
        × (check_claims lib now claims ≡ ok session)
  unfolding valid_signature
  accepted_payload now (some p) (some s) session h =
      elim (Bool-cases (bytes_eq s (lib.hmac service.secret p))) [
        | inr bad ↦ absurd (ground arith)
        | inl good ↦ elim (Option-cases (lib.unmarshal p)) [
          | inl unread ↦ absurd (ground arith)
          | inr (claims, read) ↦ (
            p,
            claims,
            refl,
            ap some ((bytes_eq_iff s (lib.hmac service.secret p)).0 good),
            read,
            ground arith,
          )
        ]
      ]
  accepted_payload now (some p) none session h = absurd (ground arith)
  accepted_payload now none b session h = absurd (ground arith)

  accepted_parts :
      (now : Time) (parts : List String) (session : Session)
      → check_parts lib service now parts ≡ ok session
      → (first second : String) × (parts ≡ first ∷ second ∷ [])
        × (check_payload lib service now (lib.decode64 first) (lib.decode64 second) ≡ ok session)
  accepted_parts now [] session h = absurd (ground arith)
  accepted_parts now (a ∷ []) session h = absurd (ground arith)
  accepted_parts now (a ∷ b ∷ []) session h = (a, b, refl, ground arith)
  accepted_parts now (a ∷ b ∷ c ∷ rest) session h = absurd (ground arith)

  -- If the codecs keep their laws, a token that VerifyToken accepts consists of a payload and the
  -- HMAC of that payload under the secret of the service, its claims give the session, with a
  -- name, and it has not expired.
  pub verify_token-Signed :
      (now : Time) (token : String) (session : Session)
      → verify_token lib service now token ≡ ok session
      → Signed now token session
  unfolding verify_token
  verify_token-Signed now token session h =
      let (first, second, parts, inner) = accepted_parts now (split 46 token) session h in
      let (payload, claims, a, b, read, checked) =
        accepted_payload now (lib.decode64 first) (lib.decode64 second) session inner in
      let (parsed, named, non_empty, expires, before) = accepted_are now claims session checked in
      (first, second, payload, claims, parts, a, b, read, parsed, named, non_empty, expires, before)

  -- A session that VerifyToken accepts can be refreshed at that time, unless its user has the nil
  -- identifier: Refresh issues a new token for its user, if the codecs keep their laws.
  pub refresh-verify_token :
      (now : Time) (token : String) (session : Session)
      → verify_token lib service now token ≡ ok session
      → ¬ (session.user.id ≡ nil_id)
      → refresh lib service now session ≡ issue lib service now session.user
  unfolding refresh
  refresh-verify_token now token session h known =
      let (
        first, second, payload, claims, parts, a, b, read, parsed, named, non_empty, expires,
        before,
      ) =
        verify_token-Signed now token session h in
      ground arith
