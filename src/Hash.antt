-- ===== src/Hash.antt =====
-- include/weblib/server/hash.hpp: the hash of a pair of a path and a method. std::hash is a parameter; a
-- std::size_t has 64 bits.
mod Tests
use Prim.Native.Nat.{bit_xor}
use web_library.Base.{ℕ, ◌+◌, ◌*◌, ◌/◌, ◌%◌, ◌^◌, Bytes}
use web_library.RequestType.{RequestType, post, get, put, delete, options}

-- s ^= h(v) + 0x9e3779b9 + (s << 6) + (s >> 2)
unfoldable pub hash_combine : {T : Type 0} → (T → ℕ) → ℕ → T → ℕ
hash_combine h s v = bit_xor s ((h v + 2654435769 + s * 2 ^ 6 % 2 ^ 64 + s / 2 ^ 2) % 2 ^ 64)

-- The enumeration's values, in its order.
unfoldable pub value_of : RequestType → ℕ
value_of get = 1
value_of post = 0
value_of put = 2
value_of delete = 3
value_of options = 4

unfoldable pub hash_type : (ℕ → ℕ) → RequestType → ℕ
unfolding value_of
hash_type hash_int x = hash_int (value_of x)

unfoldable pub hash_pair : (Bytes → ℕ) → (ℕ → ℕ) → Bytes × RequestType → ℕ
unfolding hash_combine hash_type
hash_pair hash_string hash_int (path, type) =
    hash_combine (hash_type hash_int) (hash_combine hash_string 0 path) type
