-- ===== src/HttpServer/Clients.antt =====
-- include/weblib/server/HttpServer.hpp: a client, and std::unordered_map<int, Client> as its entries.
use web_library.Base.{
  ℕ, List, [], ◌∷◌, Bool, false, Option, none, some, Bytes, ◌==◌, ==_iff, ℤ, pos, negsuc,
  if◌then◌else◌, or_else, ◌≡◌, refl, arith,
}

-- The initial values are those of the class.
pub record Client : Type 0 where
  pub fd : ℕ
  pub raw_http : Bytes
  pub content_length : ℤ
  pub body_bytes_rd : ℤ
  pub is_in_body : Bool
  pub header_end_pos : ℕ

abbrev pub ClientMap : Type 0
ClientMap = List (ℕ × Client)

-- Client{fd, {}, -1, 0, false, 0}
abbrev pub new_client : ℕ → Client
new_client fd = record {
  fd = fd;
  raw_http = [];
  content_length = negsuc 0;
  body_bytes_rd = pos 0;
  is_in_body = false;
  header_end_pos = 0;
}

unfoldable pub lookup_fd : ℕ → ClientMap → Option Client
lookup_fd fd [] = none
lookup_fd fd ((k, c) ∷ m) = if k == fd then some c else lookup_fd fd m

-- m.emplace(fd, client): a client that is there stays
unfoldable pub emplace_fd : ℕ → Client → ClientMap → ClientMap
emplace_fd fd client [] = (fd, client) ∷ []
emplace_fd fd client ((k, c) ∷ m) = (k, c) ∷ (if k == fd then m else emplace_fd fd client m)

-- The entry of a client after it was changed through a reference.
unfoldable pub assign_fd : ℕ → Client → ClientMap → ClientMap
assign_fd fd client [] = (fd, client) ∷ []
assign_fd fd client ((k, c) ∷ m) =
    if k == fd then (k, client) ∷ m else (k, c) ∷ assign_fd fd client m

unfoldable pub erase_fd : ℕ → ClientMap → ClientMap
erase_fd fd [] = []
erase_fd fd ((k, c) ∷ m) = if k == fd then erase_fd fd m else (k, c) ∷ erase_fd fd m

-- m[fd]: where there is no entry, one is made of a Client whose fd is 0.
unfoldable pub client_at : ℕ → ClientMap → Client
client_at fd m = elim (lookup_fd fd m) [ none ↦ new_client 0 | some c ↦ c ]

pub lookup_fd-emplace_fd :
    (fd j : ℕ) (client : Client) (m : ClientMap)
    → lookup_fd j (emplace_fd fd client m)
      ≡ or_else (lookup_fd j m) (if fd == j then some client else none)
unfolding lookup_fd emplace_fd
lookup_fd-emplace_fd fd j client [] = ground arith
lookup_fd-emplace_fd fd j client ((k, c) ∷ m) =
    ground (arith, ==_iff fd j, ==_iff k fd, ==_iff k j, lookup_fd-emplace_fd fd j client m)

pub lookup_fd-assign_fd :
    (fd j : ℕ) (client : Client) (m : ClientMap)
    → lookup_fd j (assign_fd fd client m) ≡ (if fd == j then some client else lookup_fd j m)
unfolding lookup_fd assign_fd
lookup_fd-assign_fd fd j client [] = refl
lookup_fd-assign_fd fd j client ((k, c) ∷ m) =
    ground (arith, ==_iff fd j, ==_iff k fd, ==_iff k j, lookup_fd-assign_fd fd j client m)

pub lookup_fd-erase_fd :
    (fd j : ℕ) (m : ClientMap)
    → lookup_fd j (erase_fd fd m) ≡ (if fd == j then none else lookup_fd j m)
unfolding lookup_fd erase_fd
lookup_fd-erase_fd fd j [] = ground arith
lookup_fd-erase_fd fd j ((k, c) ∷ m) =
    ground (arith, ==_iff fd j, ==_iff k fd, ==_iff k j, lookup_fd-erase_fd fd j m)
