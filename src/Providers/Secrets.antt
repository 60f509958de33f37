-- ===== src/Providers/Secrets.antt =====
-- The secrets of a stored provider: encrypt and decrypt of webui/app/crypto.py.
use powerdns.Prelude.{◌≡◌, refl, some, [], ◌∷◌}
use powerdns.Text.{Text, starts_with}
use powerdns.Providers.{fine, Fernet, encrypt, decrypt}

module _ (fernet : Fernet) where
  -- What is encrypted is decrypted to the secret again, if the cipher reads its own tokens.
  pub decrypt-encrypt :
      (value : Text)
      → ((t : Text) → fernet.decrypt (fernet.encrypt t) ≡ some t)
      → decrypt fernet (encrypt fernet value) ≡ fine value
  unfolding encrypt decrypt starts_with
  decrypt-encrypt [] law = refl
  decrypt-encrypt (c ∷ value) law = rw (law (c ∷ value))
