-- ===== src/Base/Decimal.antt =====
-- `u64::to_string` and `u32::to_string` of Rust's standard library.
use sol_mesh.Base.{
  ℕ, zero, suc, ◌+◌, ◌-◌, ◌*◌, ◌/◌, ◌%◌, ◌<◌, ◌≡◌, refl, ltb, List, [], ◌∷◌, ◌++◌, if◌then◌else◌,
  arith, Bool-cases, inl, inr,
}
use sol_mesh.Base.Words.{IsU64}

-- The decimal digits of a number, highest first; twenty digits are enough for a `u64`.
digits : ℕ → ℕ → List ℕ
digits zero n = []
digits (suc fuel) n =
    let rest = digits fuel (n / 10) in
    if ltb n 10 then (b'0' + n) ∷ [] else rest ++ ((b'0' + n % 10) ∷ [])

unfoldable pub to_string : ℕ → List ℕ
unfolding digits
to_string n = digits 20 n

-- The number that digits spell.
abbrev value_from : ℕ → List ℕ → ℕ
value_from acc [] = acc
value_from acc (d ∷ ds) = value_from (10 * acc + (d - b'0')) ds

value_of : List ℕ → ℕ
value_of ds = value_from 0 ds

value_from-append :
    (acc : ℕ) (xs : List ℕ) (d : ℕ)
    → value_from acc (xs ++ (d ∷ [])) ≡ 10 * value_from acc xs + (d - b'0')
value_from-append acc [] d = refl
value_from-append acc (x ∷ xs) d = value_from-append (10 * acc + (x - b'0')) xs d

abbrev ten_pow : ℕ → ℕ
ten_pow zero = 1
ten_pow (suc n) = 10 * ten_pow n

value_of-digits : (fuel n : ℕ) → n < ten_pow fuel → value_from 0 (digits fuel n) ≡ n
unfolding digits
value_of-digits zero n h = omega arith
value_of-digits (suc fuel) n h = elim (Bool-cases (ltb n 10)) [
  | inl e ↦ rw e (ground arith)
  | inr e ↦ rw e (
      rw (value_from-append 0 (digits fuel (n / 10)) (b'0' + n % 10))
        (omega (arith, value_of-digits fuel (n / 10) (omega arith))))
]

-- Every `u64` is printed in full: the digits spell it.
value_of-to_string : (n : ℕ) → IsU64 n → value_of (to_string n) ≡ n
unfolding value_of to_string
value_of-to_string n h = value_of-digits 20 n (omega arith)
