-- ===== src/Auth/Password.antt =====
-- Passwords: who can log in.
use focus_flow.Common.{
  ◌≡◌, ◌↔◌, ◌⊎◌, inl, inr, String, true, false, arith, str_eq, str_eq_iff, is_empty, Bool-cases,
}
use focus_flow.Model.{Time, User, LoginCredentials}
use focus_flow.Auth.{
  Bytes, Library, Service, err, invalid_credentials, no_bytes, PasswordCredential,
  credential_with_salt, verify_password, configured_user_verifier, issue, login,
}
use focus_flow.Auth.Token.{bytes_eq_iff}

module _ (lib : Library) where
  -- A credential made of a password accepts exactly the passwords that are not empty and hash,
  -- with its salt, to the same bytes, if neither the salt nor the hash is empty.
  pub verify_password_iff :
      (password attempt : String) (salt : Bytes)
      → no_bytes salt ≡ false
      → no_bytes (lib.hash_password password salt) ≡ false
      → (verify_password lib (credential_with_salt lib password salt) attempt ≡ true) ↔ (
          (is_empty attempt ≡ false)
          × (lib.hash_password attempt salt ≡ lib.hash_password password salt))
  unfolding verify_password credential_with_salt
  verify_password_iff password attempt salt salted hashed =
      let same = bytes_eq_iff (lib.hash_password attempt salt) (lib.hash_password password salt) in
      (λ h. ground (arith, same.0), λ h. ground (arith, same.1))

  -- With a configured user, Login issues a token for that user exactly if the name is the one
  -- configured and the credential accepts the password; any other login is refused with
  -- ErrInvalidCredentials.
  pub login-cases :
      (service : Service) (user : User) (credential : PasswordCredential)
      → service.verifier ≡ configured_user_verifier lib user credential
      → (now : Time) (credentials : LoginCredentials)
      → ((credentials.username ≡ user.username)
          × (verify_password lib credential credentials.password ≡ true)
          × (login lib service now credentials ≡ issue lib service now user))
        ⊎ ((¬ (
              (credentials.username ≡ user.username)
              × (verify_password lib credential credentials.password ≡ true)))
            × (login lib service now credentials ≡ err invalid_credentials))
  unfolding login configured_user_verifier
  login-cases service user credential configured now credentials =
      elim (Bool-cases (str_eq credentials.username user.username)) [
        | inr other ↦ inr (
          (λ both. ground (arith, (str_eq_iff credentials.username user.username).1)),
          rw configured (ground arith),
        )
        | inl same ↦ elim (Bool-cases (verify_password lib credential credentials.password)) [
          | inr bad ↦ inr ((λ both. ground arith), rw configured (ground arith))
          | inl good ↦ inl (
            (str_eq_iff credentials.username user.username).0 same,
            good,
            rw configured (ground arith),
          )
        ]
      ]
