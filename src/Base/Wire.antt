-- ===== src/Base/Wire.antt =====
-- Structures in memory: little-endian words and the bytes that they lie in.
use Prim.Native.Nat.{ℕ, zero, suc, ◌+◌, ◌*◌, ◌/◌, ◌%◌, ◌^◌, ◌<◌}
use mathlib.Core.Path.{◌≡◌, refl, ap₂}
use mathlib.Core.Bool.{Bool, true, false}
use mathlib.Core.List.{List, [], ◌∷◌, ◌++◌}
use native.Mathlib.Omega.{arith}
use lpc17xx_network.Base.Lists.{length}
use lpc17xx_network.Base.Run.{Run, ok, fault, halted}

-- The bytes of 16-bit words.
abbrev pub bytes_of_words : List ℕ → List ℕ
bytes_of_words [] = []
bytes_of_words (w ∷ ws) = w % 256 ∷ w / 256 % 256 ∷ bytes_of_words ws

-- `uint16_t *x`: the words that a block of bytes is read as.
abbrev pub words_of_bytes : List ℕ → List ℕ
words_of_bytes [] = []
words_of_bytes (a ∷ []) = []
words_of_bytes (a ∷ b ∷ bs) = (a + b * 256) ∷ words_of_bytes bs

-- Every element is below a bound.
abbrev pub AllBelow : ℕ → List ℕ → Type 0
AllBelow n [] = Unit {0}
AllBelow n (x ∷ xs) = (x < n) × AllBelow n xs

pub words_of_bytes-append :
    (ws bs : List ℕ)
    → AllBelow (2 ^ 16) ws
    → words_of_bytes (bytes_of_words ws ++ bs) ≡ ws ++ words_of_bytes bs
words_of_bytes-append [] bs h = refl
words_of_bytes-append (w ∷ ws) bs (h, t) = ap₂ ◌∷◌ (omega arith) (words_of_bytes-append ws bs t)

pub length-bytes_of_words : (ws : List ℕ) → length (bytes_of_words ws) ≡ 2 * length ws
length-bytes_of_words [] = refl
length-bytes_of_words (w ∷ ws) = omega (arith, length-bytes_of_words ws)

abbrev pub low16 : ℕ → ℕ
low16 v = v % 2 ^ 16

abbrev pub high16 : ℕ → ℕ
high16 v = v / 2 ^ 16

-- A one-bit field.
abbrev pub bit : Bool → ℕ
bit true = 1
bit false = 0

-- A structure is read from the front of a block; the rest of the block comes beside it.
abbrev pub Read : Type 0 → Type 0
Read A = List ℕ → Run (A × List ℕ)

abbrev pub read_u8 : Read ℕ
read_u8 [] = fault
read_u8 (a ∷ bs) = ok (a, bs)

abbrev pub read_u16 : Read ℕ
read_u16 [] = fault
read_u16 (a ∷ []) = fault
read_u16 (a ∷ b ∷ bs) = ok (a + b * 256, bs)

abbrev pub read_u32 : Read ℕ
read_u32 [] = fault
read_u32 (a ∷ []) = fault
read_u32 (a ∷ b ∷ []) = fault
read_u32 (a ∷ b ∷ c ∷ []) = fault
read_u32 (a ∷ b ∷ c ∷ d ∷ bs) = ok (a + b * 2 ^ 8 + c * 2 ^ 16 + d * 2 ^ 24, bs)

-- An array of `n` bytes.
abbrev pub read_bytes : ℕ → Read (List ℕ)
read_bytes zero bs = ok ([], bs)
read_bytes (suc n) [] = fault
read_bytes (suc n) (b ∷ bs) = elim (read_bytes n bs) [
  | ok (xs, rest) ↦ ok (b ∷ xs, rest)
  | _ ↦ fault
]

infixl 5 ◌>>=◌
abbrev pub ◌>>=◌ : {A B : Type 0} → Read A → (A → Read B) → Read B
◌>>=◌ m f bs = elim (m bs) [ ok (a, rest) ↦ f a rest | fault ↦ fault | halted ↦ halted ]

abbrev pub pure : {A : Type 0} → A → Read A
pure a bs = ok (a, bs)
