-- ===== src/Rsa/Tests.antt =====
-- Known values, and the theorems on src/rsa at concrete inputs.
use slim_data_crypt.Common.{
  ℕ, ◌%◌, ◌<◌, ◌≡◌, ◌↔◌, All, IsByte, refl, List, [], ◌∷◌, ◌++◌, length, Option, some, Bool, true,
  replicate, done, arith,
}
use slim_data_crypt.Integer.{value}
use slim_data_crypt.Rsa.Padding.{pad, unpad_decryption, unpad_signature, copy_out}
use slim_data_crypt.Rsa.Padding.Encryption.{plaintext, decrypted, unpad_decryption-plaintext}
use slim_data_crypt.Rsa.Padding.RoundTrip.{nonzeros, unpad_decryption-pad}
use slim_data_crypt.Rsa.Padding.Signature.{unpad_signature-pad}
use slim_data_crypt.Common.{
  suc, zero, write_at, ◌==◌, false, sym, ◌∙◌, ◌≤◌, ◌⊎◌, ◌^◌, fail, key_invalid,
}
use slim_data_crypt.Common.Modular.{mod-pow}
use slim_data_crypt.Integer.{
  IsWord, add, lt, eq_word, sub_word, borrow_loop, add_loop, sub_ctl, sub_loop, gte, lt_loop,
  masked, gen_mask_word, or_all, is_nonzero_word, set_word,
}
use slim_data_crypt.Common.Words.{load64_le}
use slim_data_crypt.Integer.Bytes.{frombytes_le}
use slim_data_crypt.Integer.Products.{mul, mul_loop, mul_row}
use slim_data_crypt.Integer.Remainders.{reduce, reduce_loop, shift_in_bit, bit_at, or_low}
use slim_data_crypt.Rsa.Inner.Public.{IsPublicKey, rsa_public_lem}
use slim_data_crypt.Rsa.Inner.Private.{IsFermat, IsPrivateKey, HasRoom, rsa_private_lem}
use slim_data_crypt.Rsa.Inner.RoundTrip.{IsKeyPair, rsa_private-rsa_public}
use slim_data_crypt.Rsa.Inner.{
  PublicKey, PrivateKey, recombine, rsa_public, rsa_private, draw, blinding_regions,
}
use slim_data_crypt.Rsa.Inner.Crt.{IsCrtKey, recombine_lem}

abbrev message : List ℕ
message = 104 ∷ 105 ∷ []

message-IsByte : All IsByte message
message-IsByte = omega arith

abbrev encrypted_form : List ℕ
encrypted_form = 0 ∷ 2 ∷ (replicate 9 77 ++ (0 ∷ message))

encrypted_form-IsByte : All IsByte encrypted_form
encrypted_form-IsByte = omega arith

abbrev room : Option (List ℕ)
room = some (replicate 4 0)

unpad_decryption-plaintext_example :
    unpad_decryption encrypted_form (room, 4) ≡ decrypted (plaintext encrypted_form) room 4
unpad_decryption-plaintext_example =
    unpad_decryption-plaintext encrypted_form room 4 encrypted_form-IsByte (omega arith)
      (omega arith) (omega arith)

-- A generator that hands out zeros, too.
abbrev random : List ℕ
random = 5 ∷ 0 ∷ 0 ∷ replicate 9 200

random-IsByte : All IsByte random
random-IsByte = omega arith

enough_random : 8 < nonzeros random
unfolding nonzeros
enough_random = omega arith

unpad_decryption-pad_example :
    (em : List ℕ) × (rest : List ℕ) × (pad 14 message 2 random ≡ done em rest)
    × (length em ≡ 14)
    × (unpad_decryption em (room, 4) ≡ done tt (copy_out message room, 2))
unpad_decryption-pad_example =
    unpad_decryption-pad 14 message random room 4 message-IsByte random-IsByte (omega arith)
      (omega arith) (omega (arith, enough_random)) refl (omega arith)

abbrev signed_form : List ℕ
signed_form = 0 ∷ 1 ∷ (replicate 9 0xff ++ (0 ∷ message))

signed_form-IsByte : All IsByte signed_form
signed_form-IsByte = omega arith

unpad_signature-pad_example :
    (accepted : Bool) × (unpad_signature signed_form message 2 ≡ done accepted 2)
    × ((accepted ≡ true) ↔ (pad 14 message 1 [] ≡ done signed_form []))
unpad_signature-pad_example =
    unpad_signature-pad signed_form message [] signed_form-IsByte message-IsByte (omega arith)
      (omega arith)

-- The primes 5 and 3, in four words each.
abbrev small_key : PrivateKey
small_key = record {
  p = 5 ∷ 0 ∷ 0 ∷ 0 ∷ [];
  q = 3 ∷ 0 ∷ 0 ∷ 0 ∷ [];
  dp = 3 ∷ 0 ∷ 0 ∷ 0 ∷ [];
  dq = 1 ∷ 0 ∷ 0 ∷ 0 ∷ [];
  qinv = 2 ∷ 0 ∷ 0 ∷ 0 ∷ [];
  d = 3 ∷ 0 ∷ 0 ∷ 0 ∷ 0 ∷ 0 ∷ 0 ∷ 0 ∷ [];
  n = 15 ∷ 0 ∷ 0 ∷ 0 ∷ 0 ∷ 0 ∷ 0 ∷ 0 ∷ [];
}

small_key-IsCrtKey : IsCrtKey small_key
small_key-IsCrtKey = record {
  some_word = omega arith;
  same_length = refl;
  inverse_length = refl;
  double_length = refl;
  p_words = omega arith;
  q_words = omega arith;
  inverse_words = omega arith;
  order = omega arith;
  inverse = refl;
}

recombine_lem_example :
    (value (recombine small_key (4 ∷ 0 ∷ 0 ∷ 0 ∷ []) (1 ∷ 0 ∷ 0 ∷ 0 ∷ [])) % 5 ≡ 4)
    × (value (recombine small_key (4 ∷ 0 ∷ 0 ∷ 0 ∷ []) (1 ∷ 0 ∷ 0 ∷ 0 ∷ [])) % 3 ≡ 1)
    × (value (recombine small_key (4 ∷ 0 ∷ 0 ∷ 0 ∷ []) (1 ∷ 0 ∷ 0 ∷ 0 ∷ [])) < 15)
recombine_lem_example =
    recombine_lem small_key small_key-IsCrtKey (4 ∷ 0 ∷ 0 ∷ 0 ∷ []) (1 ∷ 0 ∷ 0 ∷ 0 ∷ []) refl refl
      (omega arith) (omega arith) (omega arith) (omega arith)

-- Fermat's little theorem for both.
fourth_powers : (r : ℕ) → r < 5 → (r == 0) ≡ false → r ^ 4 % 5 ≡ 1
fourth_powers zero h e = absurd cc
fourth_powers (suc zero) h e = refl
fourth_powers (suc (suc zero)) h e = refl
fourth_powers (suc (suc (suc zero))) h e = refl
fourth_powers (suc (suc (suc (suc zero)))) h e = refl
fourth_powers (suc (suc (suc (suc (suc r))))) h e = absurd (omega arith)

squares : (r : ℕ) → r < 3 → (r == 0) ≡ false → r ^ 2 % 3 ≡ 1
squares zero h e = absurd cc
squares (suc zero) h e = refl
squares (suc (suc zero)) h e = refl
squares (suc (suc (suc r))) h e = absurd (omega arith)

five-IsFermat : (a : ℕ) → IsFermat 5 a
five-IsFermat a = record {
  fermat = λ e. sym (mod-pow a 4 5) ∙ fourth_powers (a % 5) (omega arith) e;
}

three-IsFermat : (a : ℕ) → IsFermat 3 a
three-IsFermat a = record { fermat = λ e. sym (mod-pow a 2 3) ∙ squares (a % 3) (omega arith) e }

small_key-IsPrivateKey : IsPrivateKey small_key
small_key-IsPrivateKey = record {
  crt = small_key-IsCrtKey;
  wide = omega arith;
  p_odd = refl;
  q_odd = refl;
  above = omega arith;
  dp_length = refl;
  dq_length = refl;
  dp_words = omega arith;
  dq_words = omega arith;
  some_dp = omega arith;
  some_dq = omega arith;
  n_words = omega arith;
}

abbrev small_public : PublicKey
small_public = record { n = 15 ∷ 0 ∷ 0 ∷ 0 ∷ 0 ∷ 0 ∷ 0 ∷ 0 ∷ []; e = 3; e_bits = 2 }

small_public-IsPublicKey : IsPublicKey small_public
small_public-IsPublicKey = record {
  words = omega arith;
  odd = refl;
  above = omega arith;
  bits = omega arith;
}

small-IsKeyPair : IsKeyPair small_public small_key
small-IsKeyPair = record {
  public_key = small_public-IsPublicKey;
  private_key = small_key-IsPrivateKey;
  same_modulus = refl;
  modulus = refl;
  dp_inverse = refl;
  dq_inverse = refl;
}

rsa_public_lem_example :
    ((out : List ℕ) × (7 < 15)
      × (rsa_public small_public (7 ∷ 0 ∷ 0 ∷ 0 ∷ 0 ∷ 0 ∷ 0 ∷ 0 ∷ []) [] ≡ done out [])
      × (value out ≡ 7 ^ 3 % 15)
      × (length out ≡ 8)
      × All IsWord out)
    ⊎ ((15 ≤ 7)
        × (rsa_public small_public (7 ∷ 0 ∷ 0 ∷ 0 ∷ 0 ∷ 0 ∷ 0 ∷ 0 ∷ []) [] ≡ fail key_invalid []))
rsa_public_lem_example =
    rsa_public_lem small_public (7 ∷ 0 ∷ 0 ∷ 0 ∷ 0 ∷ 0 ∷ 0 ∷ 0 ∷ []) [] small_public-IsPublicKey
      refl (omega arith)

-- The random bytes of two numbers 1.
abbrev one_bytes : List ℕ
one_bytes = 1 ∷ replicate 31 0

abbrev blinding : List ℕ
blinding = one_bytes ++ one_bytes

blinding-IsByte : All IsByte blinding
blinding-IsByte = omega arith

first_draw : draw 64 0 small_key.p (blinding, []) ≡ done (1 ∷ 0 ∷ 0 ∷ 0 ∷ []) (one_bytes, [])
unfolding draw reduce reduce_loop shift_in_bit bit_at or_low add add_loop sub_ctl sub_loop gte lt
    lt_loop masked gen_mask_word eq_word or_all is_nonzero_word frombytes_le load64_le set_word
first_draw = refl

second_draw : draw 32 4 small_key.q (one_bytes, []) ≡ done (1 ∷ 0 ∷ 0 ∷ 0 ∷ []) ([], [])
unfolding draw reduce reduce_loop shift_in_bit bit_at or_low add add_loop sub_ctl sub_loop gte lt
    lt_loop masked gen_mask_word eq_word or_all is_nonzero_word frombytes_le load64_le set_word
second_draw = refl

p_room : HasRoom (1 ∷ 0 ∷ 0 ∷ 0 ∷ []) small_key.p
unfolding mul mul_loop mul_row sub_word borrow_loop
p_room = omega arith

q_room : HasRoom (1 ∷ 0 ∷ 0 ∷ 0 ∷ []) small_key.q
unfolding mul mul_loop mul_row sub_word borrow_loop
q_room = omega arith

-- The same draws into the regions of a call.
abbrev regions1 : List ℕ
regions1 =
    write_at 0 (1 ∷ 0 ∷ 0 ∷ 0 ∷ [])
      (blinding_regions small_key (13 ∷ 0 ∷ 0 ∷ 0 ∷ 0 ∷ 0 ∷ 0 ∷ 0 ∷ []))

abbrev regions2 : List ℕ
regions2 = write_at 4 (1 ∷ 0 ∷ 0 ∷ 0 ∷ []) regions1

first_draw_inside :
    draw 64 0 small_key.p
      (blinding, blinding_regions small_key (13 ∷ 0 ∷ 0 ∷ 0 ∷ 0 ∷ 0 ∷ 0 ∷ 0 ∷ []))
    ≡ done (1 ∷ 0 ∷ 0 ∷ 0 ∷ []) (one_bytes, regions1)
unfolding draw reduce reduce_loop shift_in_bit bit_at or_low add add_loop sub_ctl sub_loop gte lt
    lt_loop masked gen_mask_word eq_word or_all is_nonzero_word frombytes_le load64_le set_word
first_draw_inside = refl

second_draw_inside :
    draw 32 4 small_key.q (one_bytes, regions1) ≡ done (1 ∷ 0 ∷ 0 ∷ 0 ∷ []) ([], regions2)
unfolding draw reduce reduce_loop shift_in_bit bit_at or_low add add_loop sub_ctl sub_loop gte lt
    lt_loop masked gen_mask_word eq_word or_all is_nonzero_word frombytes_le load64_le set_word
second_draw_inside = refl

rsa_private_lem_example :
    (out : List ℕ) × (rsa_private small_key (13 ∷ 0 ∷ 0 ∷ 0 ∷ 0 ∷ 0 ∷ 0 ∷ 0 ∷ []) blinding
      ≡ done out [])
    × (value out % 5 ≡ 13 ^ 3 % 5)
    × (value out % 3 ≡ 13 ^ 1 % 3)
    × (value out < 15)
    × (length out ≡ 8)
    × All IsWord out
rsa_private_lem_example =
    rsa_private_lem small_key (13 ∷ 0 ∷ 0 ∷ 0 ∷ 0 ∷ 0 ∷ 0 ∷ 0 ∷ []) blinding (1 ∷ 0 ∷ 0 ∷ 0 ∷ [])
      one_bytes regions1 (1 ∷ 0 ∷ 0 ∷ 0 ∷ []) [] regions2 small_key-IsPrivateKey refl (omega arith)
      (omega arith) blinding-IsByte first_draw_inside second_draw_inside p_room q_room
      (five-IsFermat 13) (three-IsFermat 13)

rsa_private-rsa_public_example :
    (c : List ℕ) × (out : List ℕ) × (rsa_public small_public (7 ∷ 0 ∷ 0 ∷ 0 ∷ 0 ∷ 0 ∷ 0 ∷ 0 ∷ []) []
      ≡ done c [])
    × (rsa_private small_key c blinding ≡ done out [])
    × (out ≡ 7 ∷ 0 ∷ 0 ∷ 0 ∷ 0 ∷ 0 ∷ 0 ∷ 0 ∷ [])
    × (length c ≡ 8)
    × All IsWord c
rsa_private-rsa_public_example =
    rsa_private-rsa_public small_public small_key (7 ∷ 0 ∷ 0 ∷ 0 ∷ 0 ∷ 0 ∷ 0 ∷ 0 ∷ []) [] blinding
      [] (1 ∷ 0 ∷ 0 ∷ 0 ∷ []) one_bytes [] (1 ∷ 0 ∷ 0 ∷ 0 ∷ []) [] [] small-IsKeyPair refl
      (omega arith) (omega arith) blinding-IsByte first_draw second_draw p_room q_room
      (five-IsFermat 7) (three-IsFermat 7)
