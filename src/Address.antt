-- ===== src/Address.antt =====
-- `ProcessMemoryAddress` of src/sampler.rs, an opaque 64-bit address, and its text form `{:x}`.
mod Hex
mod Tests
use Prim.Native.Char.{Char}
use profiler_rs.Prelude.{
  ℕ, zero, suc, ◌/◌, ◌%◌, Bool, String, Option, none, some, List, [], ◌∷◌, ltb, ◌==◌, get_elem?,
  if◌then◌else◌,
}

pub record ProcessMemoryAddress : Type 0 where
  pub value : ℕ

unfoldable pub new : ℕ → ProcessMemoryAddress
new value = record { value = value }

abbrev pub null : ProcessMemoryAddress
null = record { value = 0 }

unfoldable pub is_null : ProcessMemoryAddress → Bool
is_null a = a.value == 0

-- The derived `PartialEq`.
unfoldable pub eq : ProcessMemoryAddress → ProcessMemoryAddress → Bool
eq a b = a.value == b.value

abbrev hex_digits : List Char
hex_digits =
    "0" ∷ "1" ∷ "2" ∷ "3" ∷ "4" ∷ "5" ∷ "6" ∷ "7" ∷ "8" ∷ "9" ∷ "a" ∷ "b" ∷ "c" ∷ "d" ∷ "e" ∷ "f"
    ∷ []

hex_digit : ℕ → Char
hex_digit d = elim (get_elem? hex_digits d) [ some c ↦ c | none ↦ "0" ]

-- The digits of `{:x}` in front of `rest`, the last first; a `u64` has at most sixteen.
format_hex : ℕ → ℕ → String → String
format_hex zero n rest = rest
format_hex (suc k) n rest =
    let more = format_hex k (n / 16) (String.◌∷◌ (hex_digit (n % 16)) rest) in
    if ltb n 16 then String.◌∷◌ (hex_digit n) rest else more

-- `format!("0x{:x}", self.value as u64)`.
pub as_string : ProcessMemoryAddress → String
unfolding format_hex hex_digit
as_string a = String.◌∷◌ "0" (String.◌∷◌ "x" (format_hex 16 a.value String.[]))

-- `Serialize::serialize`: the address is handed to the serializer as a `u64`.
pub serialize {ℓ} : {R : Type ℓ} → (serialize_u64 : ℕ → R) → ProcessMemoryAddress → R
serialize serialize_u64 a = serialize_u64 a.value
