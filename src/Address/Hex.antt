-- ===== src/Address/Hex.antt =====
-- The text form of an address in src/sampler.rs and a reader of it.
use Prim.Native.Char.{Char, code}
use native.Mathlib.Decide.{dec_lt}
use profiler_rs.Prelude.{
  ℕ, zero, suc, ◌+◌, ◌-◌, ◌*◌, ◌/◌, ◌%◌, ◌^◌, ◌<◌, ◌≡◌, refl, Bool, true, false, subst, String,
  arith, ltb, ◌==◌, if◌then◌else◌, Bool-cases, inl, inr, ap, sym, ◌∙◌, eq_of_==,
}
use profiler_rs.Address.{ProcessMemoryAddress, hex_digit, format_hex, as_string}

-- A base 16 reader, written from the notation: the value of a digit, and of a text behind a prefix
-- that has the value `acc`.
digit_value : Char → ℕ
digit_value c = if ltb (code c) 58 then code c - 48 else code c - 87

read_hex : ℕ → String → ℕ
read_hex acc String.[] = acc
read_hex acc (String.◌∷◌ c s) = read_hex (acc * 16 + digit_value c) s

-- Past the two characters of `0x`.
pub read_address : String → ℕ
unfolding read_hex digit_value
read_address String.[] = 0
read_address (String.◌∷◌ c String.[]) = 0
read_address (String.◌∷◌ c (String.◌∷◌ d s)) = read_hex 0 s

-- Whether each digit below a bound reads back as itself.
digits_read_back : ℕ → Bool
digits_read_back zero = true
digits_read_back (suc d) =
    let smaller = digits_read_back d in if digit_value (hex_digit d) == d then smaller else false

digits_read_back-digit_value :
    (bound d : ℕ) → d < bound → digits_read_back bound ≡ true → digit_value (hex_digit d) ≡ d
unfolding digits_read_back
digits_read_back-digit_value zero d below e = absurd (omega arith)
digits_read_back-digit_value (suc top) d below e =
    elim (Bool-cases (digit_value (hex_digit top) == top)) [
      | inl good ↦ elim (dec_lt d top) [
        | yes smaller ↦ digits_read_back-digit_value top d smaller (rw good at e)
        | no not_smaller ↦
            let is : top ≡ d = omega arith in
            subst (λ n. digit_value (hex_digit n) ≡ n) is (eq_of_== _ top good)
      ]
      | inr bad ↦ let e' : false ≡ true = rw bad at e in cc
    ]

all_sixteen : digits_read_back 16 ≡ true
unfolding digits_read_back digit_value hex_digit
all_sixteen = refl

digit_value-hex_digit : (d : ℕ) → d < 16 → digit_value (hex_digit d) ≡ d
digit_value-hex_digit d h = digits_read_back-digit_value 16 d h all_sixteen

abbrev pow16 : ℕ → ℕ
pow16 zero = 1
pow16 (suc k) = 16 * pow16 k

read_hex-digit :
    (acc d m : ℕ) (rest : String)
    → d < 16
    → acc * 16 + d ≡ m
    → read_hex acc (String.◌∷◌ (hex_digit d) rest) ≡ read_hex m rest
unfolding read_hex
read_hex-digit acc d m rest h e =
    ap (λ v. read_hex (acc * 16 + v) rest) (digit_value-hex_digit d h) ∙ ap (λ v. read_hex v rest) e

read_hex-format_hex :
    (k n : ℕ) (rest : String)
    → n < pow16 k
    → 0 < k
    → read_hex 0 (format_hex k n rest) ≡ read_hex n rest
unfolding format_hex
read_hex-format_hex zero n rest h p = absurd (omega arith)
read_hex-format_hex (suc zero) n rest h p =
    let last : ltb n 16 ≡ true = ground arith in
    rw last (read_hex-digit 0 n n rest (omega arith) (omega arith))
read_hex-format_hex (suc (suc k)) n rest h p = elim (Bool-cases (ltb n 16)) [
  | inl last ↦ rw last (read_hex-digit 0 n n rest (ground arith) (omega arith))
  | inr more ↦ rw more (
      read_hex-format_hex (suc k) (n / 16) _ (omega arith) (omega arith)
      ∙ read_hex-digit (n / 16) (n % 16) n rest (omega arith) (omega arith))
]

-- Reading the text of a 64-bit address gives the address back.
pub read_address-as_string :
    (a : ProcessMemoryAddress) → a.value < 2 ^ 64 → read_address (as_string a) ≡ a.value
unfolding read_address as_string
read_address-as_string a h = read_hex-format_hex 16 a.value String.[] h (omega arith)

-- Different addresses have different texts.
pub as_string-injective :
    (a b : ProcessMemoryAddress)
    → a.value < 2 ^ 64
    → b.value < 2 ^ 64
    → as_string a ≡ as_string b
    → a ≡ b
as_string-injective a b ha hb e =
    let same : a.value ≡ b.value =
      sym (read_address-as_string a ha) ∙ (ap read_address e ∙ read_address-as_string b hb) in
    λ i. record { value = same i }
