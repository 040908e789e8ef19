-- ===== src/Mold/Bytes.antt =====
-- Big-endian numbers in byte strings: `be16` and `be64` of itch/messages.hpp, and the writers of
-- mold/packet.hpp. A byte string is a list of numbers below 256.
use itchbook.Base.{ℕ, zero, suc, ◌+◌, ◌*◌, ◌/◌, ◌%◌, ◌^◌, ◌<◌, ◌≡◌, List, [], ◌∷◌, ◌++◌, arith}

abbrev pub Bytes : Type 0
Bytes = List ℕ

abbrev pub take_bytes : ℕ → Bytes → Bytes
take_bytes zero xs = []
take_bytes (suc n) [] = []
take_bytes (suc n) (x ∷ xs) = x ∷ take_bytes n xs

abbrev pub drop_bytes : ℕ → Bytes → Bytes
drop_bytes zero xs = xs
drop_bytes (suc n) [] = []
drop_bytes (suc n) (x ∷ xs) = drop_bytes n xs

-- The number that the first `n` bytes spell, most significant first.
unfoldable pub be_from : ℕ → ℕ → Bytes → ℕ
be_from zero acc xs = acc
be_from (suc n) acc [] = acc
be_from (suc n) acc (x ∷ xs) = be_from n (acc * 256 + x) xs

unfoldable pub be16 : Bytes → ℕ
be16 xs = be_from 2 0 xs

unfoldable pub be64 : Bytes → ℕ
be64 xs = be_from 8 0 xs

-- The last `n` bytes of a number, most significant first.
unfoldable pub be_bytes : ℕ → ℕ → Bytes
be_bytes zero v = []
be_bytes (suc n) v = v / 256 ^ n % 256 ∷ be_bytes n v

unfoldable pub write_be16 : ℕ → Bytes
write_be16 v = be_bytes 2 v

unfoldable pub write_be64 : ℕ → Bytes
write_be64 v = be_bytes 8 v

pub be16-write : (v : ℕ) (xs : Bytes) → v < 2 ^ 16 → be16 (write_be16 v ++ xs) ≡ v
unfolding be16 write_be16 be_from be_bytes
be16-write v xs h = omega arith

pub be64-write : (v : ℕ) (xs : Bytes) → v < 2 ^ 64 → be64 (write_be64 v ++ xs) ≡ v
unfolding be64 write_be64 be_from be_bytes
be64-write v xs h = omega arith
