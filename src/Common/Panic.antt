-- ===== src/Common/Panic.antt =====
-- Code that may panic: a value, or the panic of an `assert!`, an `unwrap` or `unreachable!`.
pub data Exec {ℓ} (A : Type ℓ) : Type ℓ where
  done : A → Exec A
  panicked : Exec A

infixl 5 ◌>>=◌
abbrev pub ◌>>=◌ {ℓ κ} : {A : Type ℓ} {B : Type κ} → Exec A → (A → Exec B) → Exec B
done a >>= f = f a
panicked >>= f = panicked
