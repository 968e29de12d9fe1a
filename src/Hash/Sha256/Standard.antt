-- ===== src/Hash/Sha256/Standard.antt =====
-- The functions of src/sha/sha256.c against FIPS 180-4.
use slim_data_crypt.Common.{
  ℕ, zero, suc, ◌+◌, ◌-◌, ◌*◌, ◌/◌, ◌%◌, ◌^◌, ◌<◌, ◌≡◌, refl, ap, sym, ◌∙◌, List, [], ◌∷◌, ◌++◌,
  length, take, drop, replicate, get_or, All, All-append, All-take, All-drop, IsByte, bit_or, u32,
  arith,
}
use slim_data_crypt.Common.Bits.{bit_or_high}
use slim_data_crypt.Common.Words.{load32_be, store32_be, store64_be}
use slim_data_crypt.Hash.{Ctx}
use slim_data_crypt.Hash.Blocks.{fold_blocks}
use slim_data_crypt.Hash.Count.{bit_length}
use slim_data_crypt.Hash.Final.{digest_state, padded, zeros_after}
use slim_data_crypt.Hash.Registers.{Registers, load_state, mix_state, store_words}
use slim_data_crypt.Hash.Streams.{feed, joined}
use slim_data_crypt.Hash.Sha256.{
  rotr32, not32, ch, maj, big_sigma0, big_sigma1, sigma0, sigma1, k256, iv256, load_words, schedule,
  round, rounds, compress, init, update, final,
}
use slim_data_crypt.Hash.Sha256.Streams.{sha256, feed-sha256}
use slim_data_crypt.Hash.Sha256.Fips.{
  rotate_right, choose, majority, upper_sigma0, upper_sigma1, lower_sigma0, lower_sigma1, root,
  cube_fractions, square_fractions, round_constants, initial_hash, words_of, octets, extend,
  Variables, step, steps, variables_of, added, hash_block, hash_blocks, preprocessed, octets_of,
  fips_sha256,
}

abbrev Is32 : ℕ → Type 0
Is32 x = x < 2 ^ 32

constants_lem : (round_constants ≡ k256) × (initial_hash ≡ iv256)
unfolding round_constants initial_hash cube_fractions square_fractions root
constants_lem = (refl, refl)

-- A rotation by shifts.
rotr32-rotate_right :
    (n x : ℕ)
    → u32 (x * 2 ^ (32 - n)) ≡ x % 2 ^ n * 2 ^ (32 - n)
    → x / 2 ^ n < 2 ^ (32 - n)
    → rotr32 x n ≡ rotate_right n x
unfolding rotr32 rotate_right
rotr32-rotate_right n x high low =
    ap (bit_or (x / 2 ^ n)) high ∙ bit_or_high (32 - n) (x % 2 ^ n) (x / 2 ^ n) low

big_sigma0_lem : (x : ℕ) → Is32 x → big_sigma0 x ≡ upper_sigma0 x
unfolding big_sigma0 upper_sigma0
big_sigma0_lem x h =
    rw
      (
        rotr32-rotate_right 2 x (omega arith) (omega arith),
        rotr32-rotate_right 13 x (omega arith) (omega arith),
        rotr32-rotate_right 22 x (omega arith) (omega arith),
      )
      refl

big_sigma1_lem : (x : ℕ) → Is32 x → big_sigma1 x ≡ upper_sigma1 x
unfolding big_sigma1 upper_sigma1
big_sigma1_lem x h =
    rw
      (
        rotr32-rotate_right 6 x (omega arith) (omega arith),
        rotr32-rotate_right 11 x (omega arith) (omega arith),
        rotr32-rotate_right 25 x (omega arith) (omega arith),
      )
      refl

sigma0_lem : (x : ℕ) → Is32 x → sigma0 x ≡ lower_sigma0 x
unfolding sigma0 lower_sigma0
sigma0_lem x h =
    rw
      (
        rotr32-rotate_right 7 x (omega arith) (omega arith),
        rotr32-rotate_right 18 x (omega arith) (omega arith),
      )
      refl

sigma1_lem : (x : ℕ) → Is32 x → sigma1 x ≡ lower_sigma1 x
unfolding sigma1 lower_sigma1
sigma1_lem x h =
    rw
      (
        rotr32-rotate_right 17 x (omega arith) (omega arith),
        rotr32-rotate_right 19 x (omega arith) (omega arith),
      )
      refl

-- An element of a list of words, or 0, is a word.
get_or-Is32 : (ws : List ℕ) (i : ℕ) → All Is32 ws → Is32 (get_or ws i 0)
get_or-Is32 [] i h = omega arith
get_or-Is32 (w ∷ ws) zero h = h.0
get_or-Is32 (w ∷ ws) (suc i) h = get_or-Is32 ws i h.1

get_or-IsByte : (bs : List ℕ) (i : ℕ) → All IsByte bs → IsByte (get_or bs i 0)
get_or-IsByte [] i h = omega arith
get_or-IsByte (b ∷ bs) zero h = h.0
get_or-IsByte (b ∷ bs) (suc i) h = get_or-IsByte bs i h.1

load_words_lem :
    (n : ℕ) (block : List ℕ)
    → All IsByte block
    → (load_words n block ≡ words_of n block) × All Is32 (words_of n block)
unfolding load_words words_of load32_be
load_words_lem zero block h = (refl, tt)
load_words_lem (suc n) block h =
    let b0 = get_or block 0 0 in
    let b1 = get_or block 1 0 in
    let b2 = get_or block 2 0 in
    let b3 = get_or block 3 0 in
    let l0 = get_or-IsByte block 0 h in
    let l1 = get_or-IsByte block 1 h in
    let l2 = get_or-IsByte block 2 h in
    let l3 = get_or-IsByte block 3 h in
    let (same, words) = load_words_lem n (drop 4 block) (All-drop IsByte 4 block h) in
    let sum : bit_or (bit_or (bit_or b3 (b2 * 2 ^ 8)) (b1 * 2 ^ 16)) (b0 * 2 ^ 24)
        ≡ b0 * 2 ^ 24 + b1 * 2 ^ 16 + b2 * 2 ^ 8 + b3 =
      rw
        (
          bit_or_high 8 b2 b3 (omega arith),
          bit_or_high 16 b1 (b3 + b2 * 2 ^ 8) (omega arith),
          bit_or_high 24 b0 (b3 + b2 * 2 ^ 8 + b1 * 2 ^ 16) (omega arith),
        )
        (omega arith) in
    (rw (sum, same) refl, (omega arith, words))

schedule_lem :
    (n t : ℕ) (w : List ℕ) → All Is32 w → (schedule n t w ≡ extend n t w) × All Is32 (extend n t w)
unfolding schedule extend
schedule_lem zero t w h = (refl, h)
schedule_lem (suc n) t w h =
    let next =
      (lower_sigma1 (get_or w (t - 2) 0)
        + get_or w (t - 7) 0
        + lower_sigma0 (get_or w (t - 15) 0)
        + get_or w (t - 16) 0)
      % 2 ^ 32 in
    let later =
      schedule_lem n (t + 1) (w ++ (next ∷ []))
        (All-append Is32 w (next ∷ []) h (omega arith, tt)) in
    rw
      (
        sigma1_lem (get_or w (t - 2) 0) (get_or-Is32 w (t - 2) h),
        sigma0_lem (get_or w (t - 15) 0) (get_or-Is32 w (t - 15) h),
      )
      later

-- The same variables.
record Same (r : Registers) (v : Variables) : Type 0 where
  a : r.a ≡ v.a
  b : r.b ≡ v.b
  c : r.c ≡ v.c
  d : r.d ≡ v.d
  e : r.e ≡ v.e
  f : r.f ≡ v.f
  g : r.g ≡ v.g
  h : r.h ≡ v.h
  word_a : Is32 v.a
  word_e : Is32 v.e

round-step : (r : Registers) (v : Variables) (k w : ℕ) → Same r v → Same (round r k w) (step v k w)
unfolding round step ch choose not32 maj majority
round-step r v k w s =
    rw
      (
        s.a,
        s.b,
        s.c,
        s.d,
        s.e,
        s.f,
        s.g,
        s.h,
        big_sigma1_lem v.e s.word_e,
        big_sigma0_lem v.a s.word_a,
      )
      (record {
        a = refl;
        b = refl;
        c = refl;
        d = refl;
        e = refl;
        f = refl;
        g = refl;
        h = refl;
        word_a = omega arith;
        word_e = omega arith;
      })

rounds-steps :
    (ks ws : List ℕ) (r : Registers) (v : Variables)
    → Same r v
    → Same (rounds ks ws r) (steps ks ws v)
unfolding rounds steps
rounds-steps [] ws r v s = s
rounds-steps (k ∷ ks) [] r v s = s
rounds-steps (k ∷ ks) (w ∷ ws) r v s =
    rounds-steps ks ws (round r k w) (step v k w) (round-step r v k w s)

mix_state-added :
    (hash : List ℕ) (r : Registers) (v : Variables)
    → Same r v
    → mix_state (λ x y. u32 (x + y)) hash r ≡ added hash v
unfolding mix_state added
mix_state-added hash r v s = rw (s.a, s.b, s.c, s.d, s.e, s.f, s.g, s.h) refl

compress_parts :
    (hash block : List ℕ)
    → compress hash block
      ≡ mix_state
          (λ x y. u32 (x + y))
          hash
          (rounds k256 (schedule 48 16 (load_words 16 block)) (load_state hash))
unfolding compress
compress_parts hash block = refl

compress-hash_block :
    (hash block : List ℕ)
    → All Is32 hash
    → All IsByte block
    → (compress hash block ≡ hash_block hash block) × All Is32 (hash_block hash block)
unfolding hash_block load_state variables_of
compress-hash_block hash block h b =
    let (same_words, words) = load_words_lem 16 block b in
    let (same_schedule, scheduled) = schedule_lem 48 16 (words_of 16 block) words in
    let start : Same (load_state hash) (variables_of hash) = record {
      a = refl;
      b = refl;
      c = refl;
      d = refl;
      e = refl;
      f = refl;
      g = refl;
      h = refl;
      word_a = get_or-Is32 hash 0 h;
      word_e = get_or-Is32 hash 4 h;
    } in
    let ended = rounds-steps k256 (extend 48 16 (words_of 16 block)) _ _ start in
    (
      compress_parts hash block
          ∙ ap (λ ws. mix_state (λ x y. u32 (x + y)) hash (rounds k256 ws (load_state hash)))
              (ap (schedule 48 16) same_words ∙ same_schedule)
          ∙ mix_state-added hash _ _ ended
          ∙ ap (λ ks. added hash (steps ks (extend 48 16 (words_of 16 block)) (variables_of hash)))
              (sym constants_lem.0),
      unfold added in omega arith,
    )

fold_blocks-hash_blocks :
    (n : ℕ) (hash bytes : List ℕ)
    → All Is32 hash
    → All IsByte bytes
    → fold_blocks 64 compress n hash bytes ≡ hash_blocks n hash bytes
unfolding fold_blocks hash_blocks
fold_blocks-hash_blocks zero hash bytes h b = refl
fold_blocks-hash_blocks (suc n) hash bytes h b =
    let (same, words) = compress-hash_block hash (take 64 bytes) h (All-take IsByte 64 bytes b) in
    ap (λ s. fold_blocks 64 compress n s (drop 64 bytes)) same
    ∙ fold_blocks-hash_blocks n (hash_block hash (take 64 bytes)) (drop 64 bytes) words
        (All-drop IsByte 64 bytes b)

store_words-octets_of : (ws : List ℕ) → store_words store32_be ws ≡ octets_of ws
unfolding store_words octets_of store32_be octets
store_words-octets_of [] = refl
store_words-octets_of (w ∷ ws) =
    ap (λ t. store32_be w ++ t) (store_words-octets_of ws)
    ∙ ap
        (λ t.
          w / 2 ^ 24 % 2 ^ 8 ∷ w / 2 ^ 16 % 2 ^ 8 ∷ w / 2 ^ 8 % 2 ^ 8 ∷ t % 2 ^ 8 ∷ octets_of ws)
        (let e : w ≡ w / 1 = omega arith in e)

octets-IsByte : (n x : ℕ) → All IsByte (octets n x)
unfolding octets
octets-IsByte zero x = tt
octets-IsByte (suc n) x = (omega arith, octets-IsByte n x)

All-replicate : (n : ℕ) → All IsByte (replicate n 0)
All-replicate zero = tt
All-replicate (suc n) = (omega arith, All-replicate n)

bit_length-octets :
    (message : List ℕ)
    → length message * 8 < 2 ^ 64
    → bit_length message ≡ octets 8 (length message * 8)
unfolding bit_length octets store64_be
bit_length-octets message h =
    let n = length message * 8 in
    let same : n % 2 ^ 64 ≡ n = omega arith in
    ap store64_be same
    ∙ ap
        (λ t.
          n / 2 ^ 56 % 2 ^ 8
          ∷ n / 2 ^ 48 % 2 ^ 8
          ∷ n / 2 ^ 40 % 2 ^ 8
          ∷ n / 2 ^ 32 % 2 ^ 8
          ∷ n / 2 ^ 24 % 2 ^ 8
          ∷ n / 2 ^ 16 % 2 ^ 8
          ∷ n / 2 ^ 8 % 2 ^ 8
          ∷ t % 2 ^ 8
          ∷ [])
        (let e : n ≡ n / 1 = omega arith in e)

padded-preprocessed :
    (message : List ℕ)
    → length message * 8 < 2 ^ 64
    → padded 64 (bit_length message) message ≡ preprocessed message
unfolding padded preprocessed zeros_after
padded-preprocessed message h = rw (bit_length-octets message h) (unfold octets in refl)

preprocessed-IsByte : (message : List ℕ) → All IsByte message → All IsByte (preprocessed message)
unfolding preprocessed
preprocessed-IsByte message b =
    All-append IsByte message _ b
      (omega arith, All-append IsByte _ _ (All-replicate _) (octets-IsByte 8 (length message * 8)))

sha256-fips_sha256 :
    (message : List ℕ)
    → All IsByte message
    → length message * 8 < 2 ^ 64
    → sha256 message ≡ fips_sha256 message
unfolding sha256 fips_sha256 digest_state
sha256-fips_sha256 message b h =
    rw (padded-preprocessed message h, sym constants_lem.1)
      (store_words-octets_of _
        ∙ ap octets_of (
            fold_blocks-hash_blocks _ initial_hash (preprocessed message)
              (rw constants_lem.1 (omega arith)) (preprocessed-IsByte message b)))

-- On a context with a buffer of 64 bytes, whatever it holds, and pieces of bytes that together are
-- less than 2 ^ 64 bits: initialise, update with the pieces, and finish; that gives the SHA-256 of
-- the pieces put together, as FIPS 180-4 computes it.
pub feed-fips_sha256 :
    (c : Ctx ℕ) (pieces : List (List ℕ))
    → length c.buffer ≡ 64
    → All IsByte (joined pieces)
    → length (joined pieces) * 8 < 2 ^ 64
    → (final (feed update (init c) pieces)).1 ≡ fips_sha256 (joined pieces)
feed-fips_sha256 c pieces r b h = feed-sha256 c pieces r ∙ sha256-fips_sha256 (joined pieces) b h
