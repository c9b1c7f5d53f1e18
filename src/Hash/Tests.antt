-- ===== src/Hash/Tests.antt =====
-- include/weblib/server/hash.hpp at a path and two methods, with a hash of std::hash's form.
use web_library.Base.{ℕ, Bytes, codes, length, ◌≡◌, refl}
use web_library.RequestType.{post}
use web_library.Hash.{hash_combine, hash_pair}

abbrev by_length : Bytes → ℕ
by_length s = length s

abbrev itself : ℕ → ℕ
itself n = n

combine_test : hash_combine by_length 0 (codes "/a") ≡ 2654435771
unfolding hash_combine
combine_test = refl

pair_test : hash_pair by_length itself (codes "/a", post) ≡ 175247769436
unfolding hash_pair
pair_test = refl
