-- ===== src/Hash/Sha256/Fips.antt =====
-- SHA-256 as FIPS 180-4 defines it, apart from src/sha/sha256.c: the constants from the roots of
-- the primes, rotations as arithmetic, and the preprocessing of a message.
use slim_data_crypt.Common.{
  ℕ, zero, suc, ◌+◌, ◌-◌, ◌*◌, ◌/◌, ◌%◌, ◌^◌, List, [], ◌∷◌, ◌++◌, length, take, drop, replicate,
  get_or, bit_and, bit_xor, leb, if◌then◌else◌,
}

-- 2.2.2: rotation to the right of a word of 32 bits.
unfoldable pub rotate_right : ℕ → ℕ → ℕ
rotate_right n x = x / 2 ^ n + x % 2 ^ n * 2 ^ (32 - n)

-- 4.1.2: the six functions.
unfoldable pub choose : ℕ → ℕ → ℕ → ℕ
choose x y z = bit_xor (bit_and x y) (bit_and (2 ^ 32 - 1 - x) z)

unfoldable pub majority : ℕ → ℕ → ℕ → ℕ
majority x y z = bit_xor (bit_xor (bit_and x y) (bit_and x z)) (bit_and y z)

unfoldable pub upper_sigma0 : ℕ → ℕ
upper_sigma0 x = bit_xor (bit_xor (rotate_right 2 x) (rotate_right 13 x)) (rotate_right 22 x)

unfoldable pub upper_sigma1 : ℕ → ℕ
upper_sigma1 x = bit_xor (bit_xor (rotate_right 6 x) (rotate_right 11 x)) (rotate_right 25 x)

unfoldable pub lower_sigma0 : ℕ → ℕ
lower_sigma0 x = bit_xor (bit_xor (rotate_right 7 x) (rotate_right 18 x)) (x / 2 ^ 3)

unfoldable pub lower_sigma1 : ℕ → ℕ
lower_sigma1 x = bit_xor (bit_xor (rotate_right 17 x) (rotate_right 19 x)) (x / 2 ^ 10)

-- The first 64 primes.
abbrev primes : List ℕ
primes =
    2 ∷ 3 ∷ 5 ∷ 7 ∷ 11 ∷ 13 ∷ 17 ∷ 19 ∷ 23 ∷ 29 ∷ 31 ∷ 37 ∷ 41 ∷ 43 ∷ 47 ∷ 53 ∷ 59 ∷ 61 ∷ 67 ∷ 71
    ∷ 73 ∷ 79 ∷ 83 ∷ 89 ∷ 97 ∷ 101 ∷ 103 ∷ 107 ∷ 109 ∷ 113 ∷ 127 ∷ 131 ∷ 137 ∷ 139 ∷ 149 ∷ 151 ∷ 157
    ∷ 163 ∷ 167 ∷ 173 ∷ 179 ∷ 181 ∷ 191 ∷ 193 ∷ 197 ∷ 199 ∷ 211 ∷ 223 ∷ 227 ∷ 229 ∷ 233 ∷ 239 ∷ 241
    ∷ 251 ∷ 257 ∷ 263 ∷ 269 ∷ 271 ∷ 277 ∷ 281 ∷ 283 ∷ 293 ∷ 307 ∷ 311 ∷ []

-- The greatest number whose power is at most `x`, by the bits below `n`, on top of `r`.
unfoldable pub root : (ℕ → ℕ) → ℕ → ℕ → ℕ → ℕ
root power zero x r = r
root power (suc n) x r =
    let next = if leb (power (r + 2 ^ n)) x then r + 2 ^ n else r in root power n x next

-- 4.2.2: the first 32 bits of the fractional parts of the cube roots.
unfoldable pub cube_fractions : List ℕ → List ℕ
cube_fractions [] = []
cube_fractions (p ∷ ps) = root (λ r. r * r * r) 35 (p * 2 ^ 96) 0 % 2 ^ 32 ∷ cube_fractions ps

-- 5.3.3: those of the square roots.
unfoldable pub square_fractions : List ℕ → List ℕ
square_fractions [] = []
square_fractions (p ∷ ps) = root (λ r. r * r) 37 (p * 2 ^ 64) 0 % 2 ^ 32 ∷ square_fractions ps

unfoldable pub round_constants : List ℕ
round_constants = cube_fractions primes

unfoldable pub initial_hash : List ℕ
initial_hash = square_fractions (take 8 primes)

-- 3.1: the words of a block, `n` of them, and the octets of a number, `n` of them.
unfoldable pub words_of : ℕ → List ℕ → List ℕ
words_of zero block = []
words_of (suc n) block =
    (get_or block 0 0 * 2 ^ 24
      + get_or block 1 0 * 2 ^ 16
      + get_or block 2 0 * 2 ^ 8
      + get_or block 3 0)
    ∷ words_of n (drop 4 block)

unfoldable pub octets : ℕ → ℕ → List ℕ
octets zero x = []
octets (suc n) x = x / 2 ^ (8 * n) % 2 ^ 8 ∷ octets n x

-- 6.2.2, step 1: the message schedule from the word `t` on, behind those before it.
unfoldable pub extend : ℕ → ℕ → List ℕ → List ℕ
extend zero t w = w
extend (suc n) t w = extend n (t + 1) (
    w
    ++ ((lower_sigma1 (get_or w (t - 2) 0)
            + get_or w (t - 7) 0
            + lower_sigma0 (get_or w (t - 15) 0)
            + get_or w (t - 16) 0)
          % 2 ^ 32
        ∷ []))

-- The eight working variables.
pub record Variables : Type 0 where
  pub a : ℕ
  pub b : ℕ
  pub c : ℕ
  pub d : ℕ
  pub e : ℕ
  pub f : ℕ
  pub g : ℕ
  pub h : ℕ

-- Step 3.
unfoldable pub step : Variables → ℕ → ℕ → Variables
step v k w =
    let t1 = (v.h + upper_sigma1 v.e + choose v.e v.f v.g + k + w) % 2 ^ 32 in
    let t2 = (upper_sigma0 v.a + majority v.a v.b v.c) % 2 ^ 32 in
    record {
      a = (t1 + t2) % 2 ^ 32;
      b = v.a;
      c = v.b;
      d = v.c;
      e = (v.d + t1) % 2 ^ 32;
      f = v.e;
      g = v.f;
      h = v.g;
    }

unfoldable pub steps : List ℕ → List ℕ → Variables → Variables
steps [] ws v = v
steps (k ∷ ks) [] v = v
steps (k ∷ ks) (w ∷ ws) v = steps ks ws (step v k w)

-- Steps 2 and 4.
unfoldable pub variables_of : List ℕ → Variables
variables_of hash = record {
  a = get_or hash 0 0;
  b = get_or hash 1 0;
  c = get_or hash 2 0;
  d = get_or hash 3 0;
  e = get_or hash 4 0;
  f = get_or hash 5 0;
  g = get_or hash 6 0;
  h = get_or hash 7 0;
}

unfoldable pub added : List ℕ → Variables → List ℕ
added hash v =
    (get_or hash 0 0 + v.a) % 2 ^ 32
    ∷ (get_or hash 1 0 + v.b) % 2 ^ 32
    ∷ (get_or hash 2 0 + v.c) % 2 ^ 32
    ∷ (get_or hash 3 0 + v.d) % 2 ^ 32
    ∷ (get_or hash 4 0 + v.e) % 2 ^ 32
    ∷ (get_or hash 5 0 + v.f) % 2 ^ 32
    ∷ (get_or hash 6 0 + v.g) % 2 ^ 32
    ∷ (get_or hash 7 0 + v.h) % 2 ^ 32
    ∷ []

unfoldable pub hash_block : List ℕ → List ℕ → List ℕ
hash_block hash block =
    added hash (steps round_constants (extend 48 16 (words_of 16 block)) (variables_of hash))

-- `n` blocks from the front of `bytes`.
unfoldable pub hash_blocks : ℕ → List ℕ → List ℕ → List ℕ
hash_blocks zero hash bytes = hash
hash_blocks (suc n) hash bytes = hash_blocks n (hash_block hash (take 64 bytes)) (drop 64 bytes)

-- 5.1.1: the bit 1, the fewest zeros that fill up to 448 modulo 512 bits, and the length in bits.
unfoldable pub preprocessed : List ℕ → List ℕ
preprocessed message =
    let zeros = (2 * 64 - 8 - 1 - length message % 64) % 64 in
    message ++ (0x80 ∷ (replicate zeros 0 ++ octets 8 (length message * 8)))

unfoldable pub octets_of : List ℕ → List ℕ
octets_of [] = []
octets_of (w ∷ ws) = octets 4 w ++ octets_of ws

-- SHA-256 of a message.
unfoldable pub fips_sha256 : List ℕ → List ℕ
fips_sha256 message =
    let bytes = preprocessed message in
    octets_of (hash_blocks (length bytes / 64) initial_hash bytes)
