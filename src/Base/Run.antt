-- ===== src/Base/Run.antt =====
-- What a piece of the C code comes to: a result, an access outside its buffer, or one of the
-- endless loops (`b .`) that the code stops in.

pub data Run {ℓ} (A : Type ℓ) : Type ℓ where
  ok : A → Run A
  fault : Run A
  halted : Run A

infixl 5 ◌>>=◌
abbrev pub ◌>>=◌ {ℓ κ} : {A : Type ℓ} {B : Type κ} → Run A → (A → Run B) → Run B
ok a >>= f = f a
fault >>= f = fault
halted >>= f = halted
