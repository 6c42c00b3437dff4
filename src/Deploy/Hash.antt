-- ===== src/Deploy/Hash.antt =====
-- stringToHashCode (pkg/deploy/protocol_coordinator.go): hash/fnv's New64 over the bytes.
use Prim.Native.Nat.{bit_xor}
use zingthings.Base.{ℕ, ◌*◌, ◌%◌, ◌^◌, ◌≡◌, refl, [], ◌∷◌}
use zingthings.Base.Text.{Text, codes}

abbrev fnv_offset : ℕ
fnv_offset = 14695981039346656037

abbrev fnv_prime : ℕ
fnv_prime = 1099511628211

-- FNV-1: multiply, then mix the byte in. (FNV-1a does it the other way round.)
unfoldable pub fnv_step : ℕ → ℕ → ℕ
fnv_step h c = bit_xor (h * fnv_prime % 2 ^ 64) c

unfoldable pub fnv_write : ℕ → Text → ℕ
unfolding fnv_step
fnv_write h [] = h
fnv_write h (c ∷ s) = fnv_write (fnv_step h c) s

-- Writing to the hash never fails, so the error branch that returns 0 is not taken.
unfoldable pub string_to_hash_code : Text → ℕ
unfolding fnv_write
string_to_hash_code s = fnv_write fnv_offset s

-- The published values of FNV-1 for the empty text and for "a"; FNV-1a gives 0xaf63dc4c8601ec8c.
hash_empty : string_to_hash_code [] ≡ 0xcbf29ce484222325
unfolding string_to_hash_code
hash_empty = refl

hash_a : string_to_hash_code (codes "a") ≡ 0xaf63bd4c8601b7be
unfolding string_to_hash_code
hash_a = refl
