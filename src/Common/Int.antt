-- ===== src/Common/Int.antt =====
-- Signed integers over the native numbers, and the arithmetic of `i32`: a release build wraps around.
use um_fantasy_league.Common.Tests.{ltb, leb, eqb, if◌then◌else◌}
use um_fantasy_league.Common.Equality.{Eq}
use Prim.Native.Nat.{ℕ, suc, ◌+◌, ◌-◌, ◌*◌, ◌%◌, ◌≤◌, ◌<◌, min}
use mathlib.Core.Path.{◌≡◌}
use mathlib.Core.Logic.{◌↔◌, ◌⊎◌}
use mathlib.Core.Bool.{Bool, true, false}
use native.Mathlib.Omega.{arith}

-- `negsuc n` is -(n + 1).
pub data ℤ : Type 0 where
  pos : ℕ → ℤ
  negsuc : ℕ → ℤ

abbrev pub pos_part : ℤ → ℕ
pos_part (pos n) = n
pos_part (negsuc n) = 0

abbrev pub neg_part : ℤ → ℕ
neg_part (pos n) = 0
neg_part (negsuc n) = suc n

-- a - b, as an integer
abbrev pub sub_ℕ : ℕ → ℕ → ℤ
sub_ℕ a b = if leb b a then pos (a - b) else negsuc (b - a - 1)

infixl 65 ◌+ℤ◌ ◌-ℤ◌
infixl 70 ◌*ℤ◌
infix 50 ◌≤ℤ◌ ◌<ℤ◌
unfoldable pub ◌+ℤ◌ : ℤ → ℤ → ℤ
a +ℤ b = sub_ℕ (pos_part a + pos_part b) (neg_part a + neg_part b)

unfoldable pub ◌-ℤ◌ : ℤ → ℤ → ℤ
a -ℤ b = sub_ℕ (pos_part a + neg_part b) (neg_part a + pos_part b)

unfoldable pub ◌*ℤ◌ : ℤ → ℤ → ℤ
a *ℤ b =
    sub_ℕ (pos_part a * pos_part b + neg_part a * neg_part b)
      (pos_part a * neg_part b + neg_part a * pos_part b)

abbrev pub ◌≤ℤ◌ : ℤ → ℤ → Type 0
a ≤ℤ b = pos_part a + neg_part b ≤ pos_part b + neg_part a

abbrev pub ◌<ℤ◌ : ℤ → ℤ → Type 0
a <ℤ b = pos_part a + neg_part b < pos_part b + neg_part a

abbrev pub ltb_ℤ : ℤ → ℤ → Bool
ltb_ℤ a b = ltb (pos_part a + neg_part b) (pos_part b + neg_part a)

abbrev pub leb_ℤ : ℤ → ℤ → Bool
leb_ℤ a b = leb (pos_part a + neg_part b) (pos_part b + neg_part a)

abbrev pub eqb_ℤ : ℤ → ℤ → Bool
eqb_ℤ (pos a) (pos b) = eqb a b
eqb_ℤ (negsuc a) (negsuc b) = eqb a b
eqb_ℤ _ _ = false

pub eqb_ℤ_iff : (a b : ℤ) → (eqb_ℤ a b ≡ true) ↔ (a ≡ b)
eqb_ℤ_iff a b = ground arith

pub ltb_ℤ_iff : (a b : ℤ) → (ltb_ℤ a b ≡ true) ↔ (a <ℤ b)
ltb_ℤ_iff a b = ground arith

instance abbrev pub int_eq : Eq ℤ
int_eq = record { is_equal = eqb_ℤ; is_equal_iff = eqb_ℤ_iff }

abbrev pub max_ℤ : ℤ → ℤ → ℤ
max_ℤ a b = if leb_ℤ a b then b else a

-- One lemma for each operation lets `omega` work with the operations shut.
pub +ℤ_parts :
    (a b : ℤ)
    → pos_part (a +ℤ b) + neg_part a + neg_part b ≡ neg_part (a +ℤ b) + pos_part a + pos_part b
unfolding ◌+ℤ◌
+ℤ_parts a b = ground arith

pub -ℤ_parts :
    (a b : ℤ)
    → pos_part (a -ℤ b) + neg_part a + pos_part b ≡ neg_part (a -ℤ b) + pos_part a + neg_part b
unfolding ◌-ℤ◌
-ℤ_parts a b = ground arith

-- An integer has no two parts at once.
pub one_part : (a : ℤ) → (pos_part a ≡ 0) ⊎ (neg_part a ≡ 0)
one_part a = ground arith

pub eq_of_parts : (a b : ℤ) → pos_part a + neg_part b ≡ pos_part b + neg_part a → a ≡ b
eq_of_parts a b h = ground arith

-- The integers that an `i32` holds, and the `i64` of the database's ids.
abbrev pub I32 : Type 0
I32 = ℤ

abbrev pub I64 : Type 0
I64 = ℤ

abbrev pub i32_max : ℤ
i32_max = pos 2_147_483_647

abbrev pub i32_min : ℤ
i32_min = negsuc 2_147_483_647

abbrev pub InI32 : ℤ → Type 0
InI32 a = (i32_min ≤ℤ a) × (a ≤ℤ i32_max)

-- The value of the low 32 bits, read with their sign.
unfoldable pub wrap : ℤ → I32
wrap (pos n) = sub_ℕ ((n + 2_147_483_648) % 4_294_967_296) 2_147_483_648
wrap (negsuc n) = sub_ℕ (4_294_967_295 - (n + 2_147_483_648) % 4_294_967_296) 2_147_483_648

pub wrap_id : (a : ℤ) → InI32 a → wrap a ≡ a
unfolding wrap
wrap_id (pos n) h = ground arith
wrap_id (negsuc n) h = ground arith

pub wrap-InI32 : (a : ℤ) → InI32 (wrap a)
unfolding wrap
wrap-InI32 (pos n) = ground arith
wrap-InI32 (negsuc n) = ground arith

unfoldable pub add_i32 : I32 → I32 → I32
add_i32 a b = wrap (a +ℤ b)

-- `index as i32 + 1`, of an index below the largest `i32`
pub add_i32-index : (k : ℕ) → k < 2_147_483_647 → add_i32 (wrap (pos k)) (pos 1) ≡ pos (suc k)
unfolding add_i32
add_i32-index k h =
    let sum : pos k +ℤ pos 1 ≡ pos (suc k) = add_one in
    rw (wrap_id (pos k) (omega arith), sum) (wrap_id (pos (suc k)) (omega arith))
  where
    add_one : pos k +ℤ pos 1 ≡ pos (suc k)
    add_one = omega (arith, +ℤ_parts (pos k) (pos 1), eq_of_parts (pos k +ℤ pos 1) (pos (suc k)))

unfoldable pub sub_i32 : I32 → I32 → I32
sub_i32 a b = wrap (a -ℤ b)

unfoldable pub neg_i32 : I32 → I32
neg_i32 a = wrap (pos 0 -ℤ a)

-- `saturating_mul`
unfoldable pub saturating_mul : I32 → I32 → I32
saturating_mul a b =
    let product = a *ℤ b in
    if ltb_ℤ i32_max product then i32_max else if ltb_ℤ product i32_min then i32_min else product

-- `i32::try_from(n).unwrap_or(i32::MAX)` of a `usize`
unfoldable pub len_i32 : ℕ → I32
len_i32 n = pos (min n 2_147_483_647)
