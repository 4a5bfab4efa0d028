-- ===== src/Meta.antt =====
-- pkg/server/meta.go: the node metadata that the gossip layer carries, four little-endian bytes.
-- A byte is a number below 256; `int32` is a signed number, and its conversion to `uint32` and
-- back is the two's complement. `none` is Go's panic on a slice that is too short.
use drlee.Prelude.{
  ℕ, ◌+◌, ◌-◌, ◌*◌, ◌/◌, ◌%◌, ◌^◌, ◌≤◌, ◌<◌, ◌≡◌, Option, none, some, List, [], ◌∷◌, ◌++◌, arith,
  ltb, if◌then◌else◌,
}
use drlee.Prelude.Int.{ℤ, pos, negsuc, pos_part, neg_part}

pub record Meta : Type 0 where
  pub rpc_port : ℤ

-- uint32(x) and int32(x)
uint32_of : ℤ → ℕ
uint32_of (pos n) = n % 2 ^ 32
uint32_of (negsuc n) = 2 ^ 32 - 1 - n % 2 ^ 32

int32_of : ℕ → ℤ
int32_of n = if ltb n (2 ^ 31) then pos n else negsuc (2 ^ 32 - 1 - n)

-- binary.LittleEndian.PutUint32 into a fresh slice of four bytes
put_uint32 : ℕ → List ℕ
put_uint32 v = (v % 256) ∷ (v / 2 ^ 8 % 256) ∷ (v / 2 ^ 16 % 256) ∷ (v / 2 ^ 24 % 256) ∷ []

-- binary.LittleEndian.Uint32 of b[0:4]
get_uint32 : List ℕ → Option ℕ
get_uint32 (a ∷ b ∷ c ∷ d ∷ rest) = some (a + b * 2 ^ 8 + c * 2 ^ 16 + d * 2 ^ 24)
get_uint32 _ = none

pub encode : Meta → List ℕ
unfolding uint32_of put_uint32
encode m = put_uint32 (uint32_of m.rpc_port)

pub decode_meta : List ℕ → Option Meta
unfolding int32_of get_uint32
decode_meta b = elim (get_uint32 b) [
  | none ↦ none
  | some v ↦ some (record { rpc_port = int32_of v })
]

abbrev pub IsInt32 : ℤ → Type 0
IsInt32 n = (pos_part n < 2 ^ 31) × (neg_part n ≤ 2 ^ 31)

-- Every port that fits `int32`, negative ones included, survives the trip through the gossip layer.
pub decode_meta-encode :
    (m : Meta) (rest : List ℕ) → IsInt32 m.rpc_port → decode_meta (encode m ++ rest) ≡ some m
unfolding encode decode_meta
decode_meta-encode m rest h = ground arith
