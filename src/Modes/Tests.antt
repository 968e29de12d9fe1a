-- ===== src/Modes/Tests.antt =====
-- The modes over a toy cipher, and the theorems at concrete inputs.
use slim_data_crypt.Common.{
  ℕ, zero, suc, ◌+◌, ◌/◌, ◌≡◌, refl, sym, ◌∙◌, List, [], ◌∷◌, ◌++◌, length, take, drop,
  take_of_append, drop_of_append, replicate, All, IsByte, arith,
}
use slim_data_crypt.Modes.{Cipher, xor_bytes, cbc_encrypt, cbc_decrypt, ctr}
use slim_data_crypt.Modes.Cbc.{
  IsInverse, xor_bytes_twice, length-xor_bytes, xor_bytes-IsByte, cbc_decrypt-cbc_encrypt,
}
use slim_data_crypt.Modes.Ctr.{IsBlockwise, keystream, ctr-keystream}

abbrev key : List ℕ
key = 0x5a ∷ 0xc3 ∷ replicate 14 0x0f

key-IsByte : All IsByte key
key-IsByte = omega arith

abbrev toy_blocks : ℕ → List ℕ → List ℕ
toy_blocks zero input = []
toy_blocks (suc n) input = xor_bytes (take 16 input) key ++ toy_blocks n (drop 16 input)

abbrev toy : Cipher
toy = record {
  encrypt_block = λ block. xor_bytes block key;
  decrypt_block = λ block. xor_bytes block key;
  encrypt_blocks = toy_blocks;
}

toy-IsInverse : IsInverse toy toy
toy-IsInverse = record {
  size = λ block e. length-xor_bytes block key (omega arith) ∙ e;
  bytes = λ block e h. xor_bytes-IsByte block key h key-IsByte;
  inverse = λ block e h. xor_bytes_twice block key (omega arith);
}

toy-IsBlockwise : IsBlockwise toy
toy-IsBlockwise = record {
  none = refl;
  each = λ n block rest e.
      rw (take_of_append block rest 16 (sym e), drop_of_append block rest 16 (sym e)) refl;
  size = λ block e. length-xor_bytes block key (omega arith) ∙ e;
}

abbrev vector : List ℕ
vector = replicate 16 1

vector-IsByte : All IsByte vector
vector-IsByte = omega arith

abbrev message : List ℕ
message = 1 ∷ 2 ∷ 3 ∷ replicate 29 4

message-IsByte : All IsByte message
message-IsByte = omega arith

cbc_decrypt-cbc_encrypt_example : cbc_decrypt toy vector (cbc_encrypt toy vector message) ≡ message
cbc_decrypt-cbc_encrypt_example =
    cbc_decrypt-cbc_encrypt toy toy toy-IsInverse 2 vector message refl vector-IsByte refl
      message-IsByte

ctr-keystream_example :
    ctr toy vector (0x10 ∷ message)
    ≡ xor_bytes (0x10 ∷ message) (keystream toy vector ((length (0x10 ∷ message) + 15) / 16) 0)
ctr-keystream_example = ctr-keystream toy toy-IsBlockwise vector (omega arith) (0x10 ∷ message)
