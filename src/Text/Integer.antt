-- ===== src/Text/Integer.antt =====
-- The signed numbers of Go's int (64 bits), and strconv.Atoi.
use flow_pipe.Prelude.{
  ℕ, zero, suc, ◌^◌, ◌<◌, ◌≡◌, Option, none, some, [], ◌∷◌, arith, ltb, ◌==◌, if◌then◌else◌,
}
use flow_pipe.Text.{Text}
use flow_pipe.Text.Decimal.{parse_uint}

-- `negsuc n` is -(n + 1).
pub data ℤ : Type 0 where
  pos negsuc : ℕ → ℤ

-- The first number above an int.
abbrev pub int_limit : ℕ
int_limit = 2 ^ 63

abbrev within_int : (ℕ → ℤ) → ℕ → Option ℤ
within_int sign n = if ltb n int_limit then some (sign n) else none

abbrev unsigned : Option ℕ → Option ℤ
unsigned none = none
unsigned (some n) = within_int pos n

abbrev negated : Option ℕ → Option ℤ
negated none = none
negated (some zero) = some (pos 0)
negated (some (suc n)) = within_int negsuc n

-- strconv.Atoi; 43 is "+" and 45 is "-".
unfoldable pub atoi : Text → Option ℤ
atoi [] = none
atoi (c ∷ s) =
    if c == 43
    then unsigned (parse_uint s)
    else if c == 45
    then negated (parse_uint s)
    else unsigned (parse_uint (c ∷ s))

pub atoi-parse_uint :
    (s : Text) (n : ℕ) → parse_uint s ≡ some n → n < int_limit → atoi s ≡ some (pos n)
unfolding atoi parse_uint
atoi-parse_uint [] n h b = ground arith
atoi-parse_uint (c ∷ s) n h b = ground arith
