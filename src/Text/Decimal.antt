-- ===== src/Text/Decimal.antt =====
-- Decimal numbers: strconv.FormatUint(v, 10) and strconv.ParseUint(s, 10, 64), and their round trip.
use flow_pipe.Prelude.{
  ℕ, zero, suc, ◌+◌, ◌-◌, ◌*◌, ◌/◌, ◌%◌, ◌^◌, ◌<◌, ◌≤◌, ◌≡◌, ◌≢◌, refl, ap, ◌∙◌, sym, Bool, ◌&&◌,
  Option, none, some, List, [], ◌∷◌, ◌++◌, arith, ltb, leb, if◌then◌else◌, Bool-cases, inl, inr,
  All, All-append,
}

-- 2 ^ 64, the first number that a uint64 does not hold.
abbrev pub u64_limit : ℕ
u64_limit = 2 ^ 64

digits_fuel : ℕ → ℕ → List ℕ
digits_fuel zero n = []
digits_fuel (suc f) n =
    let rest = digits_fuel f (n / 10) ++ (48 + n % 10) ∷ [] in
    if ltb n 10 then (48 + n) ∷ [] else rest

-- strconv.FormatUint(n, 10). A number has fewer digits than its value plus one.
unfoldable pub format_uint : ℕ → List ℕ
unfolding digits_fuel
format_uint n = digits_fuel (suc n) n

abbrev is_digit : ℕ → Bool
is_digit c = leb 48 c && leb c 57

parse_from : ℕ → List ℕ → Option ℕ
parse_from acc [] = some acc
parse_from acc (c ∷ cs) =
    let next = acc * 10 + (c - 48) in
    let rest = parse_from next cs in if is_digit c && ltb next u64_limit then rest else none

-- strconv.ParseUint(s, 10, 64): `none` for an empty text, a byte that is no digit, an overflow.
unfoldable pub parse_uint : List ℕ → Option ℕ
unfolding parse_from
parse_uint [] = none
parse_uint (c ∷ cs) = parse_from 0 (c ∷ cs)

abbrev and_then : Option ℕ → (ℕ → Option ℕ) → Option ℕ
and_then none f = none
and_then (some a) f = f a

parse_from-append :
    (acc : ℕ) (s t : List ℕ)
    → parse_from acc (s ++ t) ≡ and_then (parse_from acc s) (λ a. parse_from a t)
unfolding parse_from
parse_from-append acc [] t = refl
parse_from-append acc (c ∷ s) t = ground (arith, parse_from-append (acc * 10 + (c - 48)) s t)

parse_from-digits_fuel : (f n : ℕ) → n < f → n < u64_limit → parse_from 0 (digits_fuel f n) ≡ some n
unfolding digits_fuel parse_from
parse_from-digits_fuel zero n h b = elim h [ ]
parse_from-digits_fuel (suc f) n h b = elim (Bool-cases (ltb n 10)) [
  | inl small ↦ ground arith
  | inr large ↦
      rw
        (
          large,
          parse_from-append 0 (digits_fuel f (n / 10)) ((48 + n % 10) ∷ []),
          parse_from-digits_fuel f (n / 10) (ground arith) (ground arith),
        )
        (ground arith)
]

abbrev pub IsDigits : List ℕ → Type 0
IsDigits = All (λ c. (48 ≤ c) × (c ≤ 57))

digits_fuel-IsDigits : (f n : ℕ) → IsDigits (digits_fuel f n)
unfolding digits_fuel
digits_fuel-IsDigits zero n = tt
digits_fuel-IsDigits (suc f) n = elim (Bool-cases (ltb n 10)) [
  | inl small ↦ rw small (ground arith)
  | inr large ↦ rw large (
      All-append (λ c. (48 ≤ c) × (c ≤ 57)) (digits_fuel f (n / 10)) _
        (digits_fuel-IsDigits f (n / 10)) (omega arith))
]

-- What is printed has digits alone.
pub format_uint-IsDigits : (n : ℕ) → IsDigits (format_uint n)
unfolding format_uint
format_uint-IsDigits n = digits_fuel-IsDigits (suc n) n

append_ne_nil : (s : List ℕ) (c : ℕ) → s ++ c ∷ [] ≢ []
append_ne_nil [] c e = cc
append_ne_nil (x ∷ s) c e = cc

digits_fuel-ne-nil : (f n : ℕ) → digits_fuel (suc f) n ≢ []
unfolding digits_fuel
digits_fuel-ne-nil f n = elim (Bool-cases (ltb n 10)) [
  | inl small ↦ rw small (append_ne_nil [] (48 + n))
  | inr large ↦ rw large (append_ne_nil (digits_fuel f (n / 10)) (48 + n % 10))
]

-- What is printed has a digit.
pub format_uint-ne-nil : (n : ℕ) → format_uint n ≢ []
unfolding format_uint
format_uint-ne-nil n = digits_fuel-ne-nil n n

append_last_cons : (s : List ℕ) (c : ℕ) → parse_uint (s ++ c ∷ []) ≡ parse_from 0 (s ++ c ∷ [])
unfolding parse_uint
append_last_cons [] c = refl
append_last_cons (x ∷ s) c = refl

parse_uint-digits_fuel :
    (f n : ℕ) → parse_uint (digits_fuel (suc f) n) ≡ parse_from 0 (digits_fuel (suc f) n)
unfolding digits_fuel
parse_uint-digits_fuel f n = elim (Bool-cases (ltb n 10)) [
  | inl small ↦ rw small (append_last_cons [] (48 + n))
  | inr large ↦ rw large (append_last_cons (digits_fuel f (n / 10)) (48 + n % 10))
]

-- Every uint64 is read back from its decimal text.
pub parse_uint-format_uint : (n : ℕ) → n < u64_limit → parse_uint (format_uint n) ≡ some n
unfolding format_uint
parse_uint-format_uint n b =
    parse_uint-digits_fuel n n ∙ parse_from-digits_fuel (suc n) n (omega arith) b

-- So distinct uint64 values have distinct texts.
pub format_uint-injective :
    (m n : ℕ) → m < u64_limit → n < u64_limit → format_uint m ≡ format_uint n → m ≡ n
format_uint-injective m n bm bn e =
    let same : some m ≡ some n =
      sym (parse_uint-format_uint m bm) ∙ ap parse_uint e ∙ parse_uint-format_uint n bn in
    cc
