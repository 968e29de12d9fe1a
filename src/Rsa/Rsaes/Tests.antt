-- ===== src/Rsa/Rsaes/Tests.antt =====
-- Encryption and decryption at a concrete key with primes of four words.
use mathlib.Core.Path.{subst}
use native.Mathlib.Nat.{mod-lt}
use slim_data_crypt.Common.{
  ℕ, ◌-◌, ◌%◌, ◌^◌, ◌<◌, ◌≤◌, ◌≡◌, refl, ap, sym, ◌∙◌, List, [], ◌∷◌, ◌++◌, All, IsByte, replicate,
  write_at, drop, length, true, done, arith,
}
use slim_data_crypt.Common.Modular.{mod-pow}
use slim_data_crypt.Common.Words.{load64_le}
use slim_data_crypt.Asn1.Der.{be_value}
use slim_data_crypt.Integer.{
  IsWord, value, add, lt, eq_word, sub_word, borrow_loop, add_loop, sub_ctl, sub_loop, gte, lt_loop,
  masked, gen_mask_word, or_all, is_nonzero_word, set_word,
}
use slim_data_crypt.Integer.Bytes.{frombytes_le}
use slim_data_crypt.Integer.Products.{mul, mul_loop, mul_row}
use slim_data_crypt.Integer.Remainders.{
  reduce, reduce_loop, shift_in_bit, bit_at, or_low, to_mont, double_loop,
}
use slim_data_crypt.Integer.Montgomery.{
  mont_modexp_word, modexp_loop, square_and_multiply, mont_mul, mont_loop, mont_row, from_mont,
  from_loop, from_row, calculate_ninv, newton,
}
use slim_data_crypt.Integer.Montgomery.Powers.{mont_modexp_word_lem}
use slim_data_crypt.Rsa.Padding.{pad, padding_string, random_padding, nonzero_byte, after_byte}
use slim_data_crypt.Rsa.Padding.RoundTrip.{nonzeros}
use slim_data_crypt.Rsa.Inner.{PublicKey, PrivateKey, draw}
use slim_data_crypt.Rsa.Inner.Public.{ninv_lem}
use slim_data_crypt.Rsa.Inner.Private.{IsFermat, HasRoom}
use slim_data_crypt.Rsa.Inner.RoundTrip.{IsKeyPair}
use slim_data_crypt.Rsa.Rsaes.{encrypt, decrypt}
use slim_data_crypt.Rsa.Rsaes.RoundTrip.{decrypt-encrypt}

abbrev first_prime : List ℕ
first_prime = 0xfedcba9876543287 ∷ 0xfedcba9876543210 ∷ 0xfedcba9876543210 ∷ 0xfedcba9876543210 ∷ []

abbrev second_prime : List ℕ
second_prime =
    0xedcba987654321cb ∷ 0xedcba98765432100 ∷ 0xedcba98765432100 ∷ 0xedcba98765432100 ∷ []

abbrev key : PrivateKey
key = record {
  p = first_prime;
  q = second_prime;
  dp = 0xa9e87c65a43821af ∷ 0xa9e87c65a4382160 ∷ 0xa9e87c65a4382160 ∷ 0xa9e87c65a4382160 ∷ [];
  dq = 0x9e87c65a43821687 ∷ 0x9e87c65a43821600 ∷ 0x9e87c65a43821600 ∷ 0x9e87c65a43821600 ∷ [];
  qinv = 0x593843aed2fac021 ∷ 0x1e609bec658f1207 ∷ 0x8bbde0bf933dd121 ∷ 0x4296824e27da379f ∷ [];
  d =
      0xc336c9758aae17d3 ∷ 0x39642577aa63cd ∷ 0x3d3bfed564a6ed0d ∷ 0x7a3e998551a3764c
      ∷ 0x54db3718db84c5cb ∷ 0x17d89c68ee883bbe ∷ 0xdad601b9018bb27f ∷ 0x9dd36709148f293f ∷ [];
  n =
      0x917a92502b9c780d ∷ 0x6cfe7a580f16e8c6 ∷ 0x4882625ff291b6a5 ∷ 0x24064a67d60c8484
      ∷ 0x7f48d2a5494728b3 ∷ 0xa3c4ea9d65cc599d ∷ 0xc841029582518bbe ∷ 0xecbd1a8d9ed6bddf ∷ [];
}

abbrev pub_key : PublicKey
pub_key = record { n = key.n; e = 3; e_bits = 2 }

key-IsKeyPair : IsKeyPair pub_key key
key-IsKeyPair = record {
  public_key = record {
    words = (
      omega arith,
      (
        omega arith,
        (
          omega arith,
          (omega arith, (omega arith, (omega arith, (omega arith, (omega arith, tt))))),
        ),
      ),
    );
    odd = refl;
    above = omega arith;
    bits = omega arith;
  };
  private_key = record {
    crt = record {
      some_word = omega arith;
      same_length = refl;
      inverse_length = refl;
      double_length = refl;
      p_words = (omega arith, (omega arith, (omega arith, (omega arith, tt))));
      q_words = (omega arith, (omega arith, (omega arith, (omega arith, tt))));
      inverse_words = (omega arith, (omega arith, (omega arith, (omega arith, tt))));
      order = omega arith;
      inverse = refl;
    };
    wide = omega arith;
    p_odd = refl;
    q_odd = refl;
    above = omega arith;
    dp_length = refl;
    dq_length = refl;
    dp_words = (omega arith, (omega arith, (omega arith, (omega arith, tt))));
    dq_words = (omega arith, (omega arith, (omega arith, (omega arith, tt))));
    some_dp = omega arith;
    some_dq = omega arith;
    n_words = (
      omega arith,
      (
        omega arith,
        (
          omega arith,
          (omega arith, (omega arith, (omega arith, (omega arith, (omega arith, tt))))),
        ),
      ),
    );
  };
  same_modulus = refl;
  modulus = refl;
  dp_inverse = refl;
  dq_inverse = refl;
}

-- Fermat's little theorem for one number, by a run of the exponentiation.
run-IsFermat :
    (p0 : ℕ) (ps base less : List ℕ) (a : ℕ)
    → All IsWord (p0 ∷ ps)
    → value (p0 ∷ ps) % 2 ≡ 1
    → 1 < value (p0 ∷ ps)
    → length base ≡ length (p0 ∷ ps)
    → All IsWord base
    → value base ≡ a % value (p0 ∷ ps)
    → All IsWord less
    → value less ≡ value (p0 ∷ ps) - 1
    → value (mont_modexp_word base less (p0 ∷ ps) (calculate_ninv p0)) ≡ 1
    → IsFermat (value (p0 ∷ ps)) a
run-IsFermat p0 ps base less a words odd above size base_words rest less_words one run =
    let p = value (p0 ∷ ps) in
    let below : value base < p = rw rest (mod-lt a (omega (arith, above))) in
    let power =
      mont_modexp_word_lem p0 ps (calculate_ninv p0) words odd (ninv_lem p0 ps words.0 odd) base
        size base_words above below less less_words in
    record {
      fermat = λ e.
          sym (mod-pow a (p - 1) p)
          ∙ ap (λ t. t ^ (p - 1) % p) (sym rest)
          ∙ ap (λ t. value base ^ t % p) (sym one)
          ∙ sym power
          ∙ run;
    }

abbrev msg : List ℕ
msg = 104 ∷ 105 ∷ []

abbrev random : List ℕ
random = replicate 59 200

abbrev em : List ℕ
em = 0 ∷ 2 ∷ (replicate 59 200 ++ (0 ∷ msg))

padded : pad 64 msg 2 random ≡ done em []
unfolding pad padding_string random_padding nonzero_byte after_byte
padded = refl

-- The encoded message modulo the primes, and the primes less 1.
abbrev first_rest : List ℕ
first_rest = 0x55372f30fa9a93c7 ∷ 0x184626d6fd169b5 ∷ 0x954b951f11c6f6c5 ∷ 0xc9d42f6836593fe9 ∷ []

abbrev second_rest : List ℕ
second_rest = 0x734705a32fc04572 ∷ 0x6cd5b55f42412d2f ∷ 0x241837e6b7c9861d ∷ 0xcb1e295620d53583 ∷ []

abbrev first_less : List ℕ
first_less = 0xfedcba9876543286 ∷ 0xfedcba9876543210 ∷ 0xfedcba9876543210 ∷ 0xfedcba9876543210 ∷ []

abbrev second_less : List ℕ
second_less = 0xedcba987654321ca ∷ 0xedcba98765432100 ∷ 0xedcba98765432100 ∷ 0xedcba98765432100 ∷ []

first_run :
    value (mont_modexp_word first_rest first_less first_prime (calculate_ninv 0xfedcba9876543287))
    ≡ 1
unfolding mont_modexp_word modexp_loop square_and_multiply mont_mul mont_loop mont_row from_mont
    from_loop from_row calculate_ninv newton to_mont double_loop add add_loop sub_ctl sub_loop gte
    lt lt_loop masked gen_mask_word is_nonzero_word set_word
first_run = refl

first-IsFermat : IsFermat (value first_prime) (be_value 0 em)
first-IsFermat =
    run-IsFermat 0xfedcba9876543287 (drop 1 first_prime) first_rest first_less (be_value 0 em)
      (omega arith) refl (omega arith) refl (omega arith) refl (omega arith) refl first_run

second_run :
    value
      (mont_modexp_word second_rest second_less second_prime (calculate_ninv 0xedcba987654321cb))
    ≡ 1
unfolding mont_modexp_word modexp_loop square_and_multiply mont_mul mont_loop mont_row from_mont
    from_loop from_row calculate_ninv newton to_mont double_loop add add_loop sub_ctl sub_loop gte
    lt lt_loop masked gen_mask_word is_nonzero_word set_word
second_run = refl

second-IsFermat : IsFermat (value second_prime) (be_value 0 em)
second-IsFermat =
    run-IsFermat 0xedcba987654321cb (drop 1 second_prime) second_rest second_less (be_value 0 em)
      (omega arith) refl (omega arith) refl (omega arith) refl (omega arith) refl second_run

-- Whatever encoded message padding returns, it is this one.
both-IsFermat :
    (em' rest : List ℕ)
    → pad 64 msg 2 random ≡ done em' rest
    → IsFermat (value first_prime) (be_value 0 em') × IsFermat (value second_prime) (be_value 0 em')
both-IsFermat em' rest run =
    let both : done em [] ≡ done em' rest = sym padded ∙ run in
    let same : em ≡ em' = cc in
    (
      subst (λ t. IsFermat (value first_prime) (be_value 0 t)) same first-IsFermat,
      subst (λ t. IsFermat (value second_prime) (be_value 0 t)) same second-IsFermat,
    )

-- The random bytes of two numbers 1.
abbrev one_bytes : List ℕ
one_bytes = 1 ∷ replicate 31 0

abbrev blinding : List ℕ
blinding = one_bytes ++ one_bytes

first_draw : draw 64 0 key.p (blinding, []) ≡ done (1 ∷ 0 ∷ 0 ∷ 0 ∷ []) (one_bytes, [])
unfolding draw reduce reduce_loop shift_in_bit bit_at or_low add add_loop sub_ctl sub_loop gte lt
    lt_loop masked gen_mask_word eq_word or_all is_nonzero_word frombytes_le load64_le set_word
first_draw = refl

second_draw : draw 32 4 key.q (one_bytes, []) ≡ done (1 ∷ 0 ∷ 0 ∷ 0 ∷ []) ([], [])
unfolding draw reduce reduce_loop shift_in_bit bit_at or_low add add_loop sub_ctl sub_loop gte lt
    lt_loop masked gen_mask_word eq_word or_all is_nonzero_word frombytes_le load64_le set_word
second_draw = refl

first_room : HasRoom (1 ∷ 0 ∷ 0 ∷ 0 ∷ []) key.p
unfolding mul mul_loop mul_row sub_word borrow_loop
first_room = omega arith

second_room : HasRoom (1 ∷ 0 ∷ 0 ∷ 0 ∷ []) key.q
unfolding mul mul_loop mul_row sub_word borrow_loop
second_room = omega arith

enough_random : 59 ≤ nonzeros random
unfolding nonzeros
enough_random = omega arith

random-IsByte : All IsByte random
random-IsByte = omega arith

blinding-IsByte : All IsByte blinding
blinding-IsByte = omega arith

decrypt-encrypt_example :
    (cipher : List ℕ) × (rest : List ℕ) × (encrypt true pub_key msg (random, 64)
      ≡ done cipher (rest, 64))
    × (decrypt true key cipher (blinding, (replicate 4 0, 4))
        ≡ done tt ([], (write_at 0 msg (replicate 4 0), 2)))
decrypt-encrypt_example =
    decrypt-encrypt pub_key key msg random (replicate 4 0) blinding [] (1 ∷ 0 ∷ 0 ∷ 0 ∷ [])
      one_bytes [] (1 ∷ 0 ∷ 0 ∷ 0 ∷ []) [] [] 64 4 key-IsKeyPair (omega arith) (omega arith)
      (omega arith) (omega arith) (omega arith) random-IsByte (omega (arith, enough_random))
      (omega arith) (omega arith) blinding-IsByte first_draw second_draw first_room second_room
      both-IsFermat
