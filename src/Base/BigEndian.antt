-- ===== src/Base/BigEndian.antt =====
-- `to_be_bytes` and `from_be_bytes` of the unsigned integers.
use signet_drive.Base.Lists.{length, length-append, append_inj}
use Prim.Native.Nat.{ℕ, zero, suc, ◌+◌, ◌*◌, ◌/◌, ◌%◌, ◌^◌, ◌<◌}
use mathlib.Core.Path.{◌≡◌, refl, sym, ap, ◌∙◌}
use mathlib.Core.List.{List, [], ◌∷◌, ◌++◌}
use native.Mathlib.Omega.{arith}
use native.Mathlib.Nat.{pow-suc}

-- The low `w` bytes of a number, highest first: `to_be_bytes` of a word of `w` bytes.
unfoldable pub be : ℕ → ℕ → List ℕ
be zero v = []
be (suc w) v = be w (v / 256) ++ (v % 256 ∷ [])

be_value : ℕ → List ℕ → ℕ
be_value acc [] = acc
be_value acc (b ∷ rest) = be_value (acc * 256 + b) rest

-- `from_be_bytes`.
unfoldable pub from_be : List ℕ → ℕ
unfolding be_value
from_be bytes = be_value 0 bytes

pub length-be : (w v : ℕ) → length (be w v) ≡ w
unfolding be
length-be zero v = refl
length-be (suc w) v =
    omega (arith, length-append (be w (v / 256)) (v % 256 ∷ []), length-be w (v / 256))

be_value-append :
    (acc : ℕ) (xs : List ℕ) (y : ℕ) → be_value acc (xs ++ (y ∷ [])) ≡ be_value acc xs * 256 + y
unfolding be_value
be_value-append acc [] y = refl
be_value-append acc (x ∷ xs) y = be_value-append (acc * 256 + x) xs y

-- A word that fits its width is read back.
pub from_be-be : (w v : ℕ) → v < 256 ^ w → from_be (be w v) ≡ v
unfolding from_be be
from_be-be zero v h = omega arith
from_be-be (suc w) v h =
    be_value-append 0 (be w (v / 256)) (v % 256)
    ∙ omega (arith, from_be-be w (v / 256) (omega (arith, pow-suc 256 w)))

pub be_inj : (w u v : ℕ) → u < 256 ^ w → v < 256 ^ w → be w u ≡ be w v → u ≡ v
be_inj w u v hu hv e = sym (from_be-be w u hu) ∙ ap from_be e ∙ from_be-be w v hv

-- A field that is shorter than 2^32 bytes can be told from what follows it.
pub field_inj :
    (x y : List ℕ) {u v : List ℕ}
    → length x < 2 ^ 32
    → length y < 2 ^ 32
    → be 4 (length x) ++ (x ++ u) ≡ be 4 (length y) ++ (y ++ v)
    → (x ≡ y) × (u ≡ v)
field_inj x y hx hy e =
    let (p, q) =
      append_inj (be 4 (length x)) (be 4 (length y))
        (length-be 4 (length x) ∙ sym (length-be 4 (length y))) e in
    append_inj x y (be_inj 4 (length x) (length y) (omega arith) (omega arith) p) q
