-- ===== src/Auth/Password.antt =====
-- src/llamaste/auth.cpp: what holds of the password, the timeout and device.json. bcrypt_hash and
-- bcrypt_check of bcrypt.cpp are arguments.
use llamaste.Auth.{
  AuthManager, save_config, set_device_password, verify_device_password, is_setup_complete,
}
use llamaste.Prelude.{
  ℕ, ◌≡◌, ◌≢◌, Bool, true, [], ◌∷◌, Bytes, is_empty, length, leb, not, ◌&&◌, arith, if◌then◌else◌,
}

-- The passwords that are accepted: of 1 to 72 bytes, with a digest.
abbrev pub accepted : (Bytes → ℕ → Bytes) → Bytes → Bool
accepted bcrypt_hash p =
    not (is_empty p) && (leb (length p) 72 && not (is_empty (bcrypt_hash p 12)))

-- A password of 1 to 72 bytes that bcrypt can hash is stored: the setup is complete, the
-- password checks, and an API key that existed is kept, or else the new one is taken.
-- Any other password changes nothing.
pub set_device_password_lem :
    (bcrypt_hash : Bytes → ℕ → Bytes) (bcrypt_check : Bytes → Bytes → Bool) (key password : Bytes)
    (m : AuthManager)
    → ((p : Bytes) → bcrypt_hash p 12 ≢ [] → bcrypt_check p (bcrypt_hash p 12) ≡ true)
    → let (m', done) = set_device_password bcrypt_hash key password m in
      let stores = accepted bcrypt_hash password in
      (done ≡ stores)
      × (is_setup_complete m' ≡ (if stores then true else is_setup_complete m))
      × (verify_device_password bcrypt_check password m'
          ≡ (if stores then true else verify_device_password bcrypt_check password m))
      × (m'.api_key
          ≡ (if stores then (if is_empty m.api_key then key else m.api_key) else m.api_key))
      × (m'.sessions ≡ m.sessions)
unfolding set_device_password verify_device_password is_setup_complete save_config
set_device_password_lem bcrypt_hash bcrypt_check key [] m check = ground arith
set_device_password_lem bcrypt_hash bcrypt_check key (c ∷ cs) m check =
    ground (arith, check (c ∷ cs))
