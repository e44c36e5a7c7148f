-- ===== src/Password.antt =====
-- password/password.go, over bcrypt. A password and a hash are texts of bytes; `salt` is what bcrypt
-- draws at random.
use aeternixth_go_lib.Prelude.{
  ℕ, ◌≤◌, List, [], Option, none, some, ◌≡◌, ◌⊎◌, inl, inr, ap, ◌∙◌, length,
}

pub data BcryptError : Type 0 where
  password_too_long : BcryptError
  mismatched_hash_and_password : BcryptError
  invalid_hash : BcryptError

pub record Bcrypt : Type 0 where
  pub generate_from_password : ℕ → List ℕ → ℕ → List ℕ ⊎ BcryptError
  pub compare_hash_and_password : List ℕ → List ℕ → Option BcryptError

-- `bcrypt.DefaultCost`
abbrev pub default_cost : ℕ
default_cost = 10

module _ (bcrypt : Bcrypt) where
  abbrev hash_or_error : List ℕ ⊎ BcryptError → List ℕ × Option BcryptError
  hash_or_error (inl hash) = (hash, none)
  hash_or_error (inr err) = ([], some err)

  -- `HashPassword`
  unfoldable pub hash_password : ℕ → List ℕ → List ℕ × Option BcryptError
  hash_password salt password =
      hash_or_error (bcrypt.generate_from_password salt password default_cost)

  -- `VerifyPassword`
  unfoldable pub verify_password : List ℕ → List ℕ → Option BcryptError
  verify_password hash password = bcrypt.compare_hash_and_password hash password

  -- What bcrypt documents: it generates a hash exactly for a password of at most 72 bytes, and the hash
  -- fits its password.
  pub record IsDocumented : Type 0 where
    pub generates :
        (salt : ℕ) (password : List ℕ)
        → length password ≤ 72
        → (hash : List ℕ) × (bcrypt.generate_from_password salt password default_cost ≡ inl hash)
    pub too_long :
        (salt : ℕ) (password : List ℕ)
        → ¬ (length password ≤ 72)
        → bcrypt.generate_from_password salt password default_cost ≡ inr password_too_long
    pub fits :
        (salt : ℕ) (password hash : List ℕ)
        → bcrypt.generate_from_password salt password default_cost ≡ inl hash
        → bcrypt.compare_hash_and_password hash password ≡ none

  hash_password-hash :
      (d : IsDocumented) (salt : ℕ) (password : List ℕ) (short : length password ≤ 72)
      → hash_password salt password ≡ ((d.generates salt password short).0, none)
  unfolding hash_password
  hash_password-hash d salt password short = ap hash_or_error (d.generates salt password short).1

  -- A password of at most 72 bytes is hashed without an error, and its hash verifies it.
  verify_password-hash_password :
      IsDocumented
      → (salt : ℕ) (password : List ℕ) → length password ≤ 72
      → ((hash_password salt password).1 ≡ none)
        × (verify_password (hash_password salt password).0 password ≡ none)
  unfolding verify_password
  verify_password-hash_password d salt password short =
      let (hash, made) = d.generates salt password short in
      let e = hash_password-hash d salt password short in
      (
        ap (λ (r : List ℕ × Option BcryptError). r.1) e,
        ap (λ (r : List ℕ × Option BcryptError). verify_password r.0 password) e
            ∙ d.fits salt password hash made,
      )

  -- A longer one is refused, with an empty hash.
  hash_password_long :
      IsDocumented
      → (salt : ℕ) (password : List ℕ) → ¬ (length password ≤ 72)
      → hash_password salt password ≡ ([], some password_too_long)
  unfolding hash_password
  hash_password_long d salt password long = ap hash_or_error (d.too_long salt password long)
