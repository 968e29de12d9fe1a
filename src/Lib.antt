-- ===== src/Lib.antt =====
-- slim-data-crypt: a cryptography library in C. Modelled here are its ASN.1 code, its integers of
-- many words, the modes of its block ciphers, its hashes of the Merkle-Damgard kind with HMAC and
-- PBKDF2 over them, and the inner part of RSA.
--
-- The parts. src/asn1 holds a DER reader (asn1parse.c), a DER writer that fills its buffer from
-- the end (asn1write.c), and the calendar with a cache (asn1time.c) that the readers of times
-- call. src/integer has the arithmetic that RSA and the search for primes stand on; the reader and
-- the writer pass on its arrays of words. src/block_cipher.c runs AES and SM4 through a table of
-- function pointers. src/sha and src/sm3 hash a message that comes in pieces; src/kdf builds a code
-- and keys from SHA-256. src/rsa pads messages as PKCS#1 v1.5 asks for, and works on the
-- padded ones with the integers. Ciphers and curves are apart.
--
-- Conventions. A C function that changes state is a `Call S A` (Common/Calls): it is done with a
-- result, fails with an error code, or faults, which stands for a read or a write outside an
-- array; done and fail carry the new state. Bytes and words are natural numbers, with the
-- wrap-around of `uint8_t`, `uint64_t` and `size_t` (of a 64-bit build) written out. An array is
-- the list of its elements, and a pointer into one the list from there on. Checks for null
-- pointers are left out where the callers have none to pass. A context on the stack that is not
-- initialised is an argument `local`, and the generator of random bytes the list of those that it
-- hands out before it fails.
--
-- The files:
--   Common        shared names; Common/Lists has arrays, Common/Bits the bit operations,
--                 Common/Modular remainders of powers, Common/Words the loads and
--                 stores of include/sdcrypt/utils.h.
--   Asn1/Tag      the tags of include/sdcrypt/asn1.h.
--   Asn1/Der      the encoding by X.690, apart from the code.
--   Asn1/Reader   `sdc_asn1_reader_t` as the record `Reader`, read_bytes and sdc_asn1_read_tag as
--                 `read_bytes` and `read_tag`. Reader/Values, Reader/Strings, Reader/Transfers and
--                 Reader/Times hold the typed readers, named as in C without `sdc_asn1_`.
--                 Reader/View sees a reader as the bytes that it has still to read;
--                 Reader/Header, Reader/Integers and Reader/Contents read encodings;
--                 Reader/Safety and its children treat any input, for the header, containers,
--                 INTEGER of a `uint64_t`, BOOLEAN, NULL, strings, BIT STRING and skipping.
--   Asn1/Writer   `sdc_asn1_writer_t` as the record `Writer`; Writer/Values, Writer/Nested,
--                 Writer/Times and Writer/Words hold the writers. Writer/Prepend says what it
--                 means to prepend bytes, Writer/Header, Writer/Encodings, Writer/Integers
--                 and Writer/Containers treat the helpers, strings, BOOLEAN and NULL, INTEGER
--                 of a `uint64_t` and containers; Writer/Outcomes any size of the buffer.
--   Asn1/Time     asn1time.c, its static variables as the record `Clock`. Time/Loops and
--                 Time/Calendar treat the loops and dates, Time/Cache and Time/Early the
--                 cache, Time/Gregorian the calendar in closed form.
--   Asn1/RoundTrip  writer and reader together: RoundTrip/Values for INTEGER of a `uint64_t`,
--                 BOOLEAN, NULL, strings and containers, RoundTrip/Times and RoundTrip/Dates for
--                 UTCTime.
--   Asn1/Tests, Asn1/Time/Tests  concrete runs.
--
--   Integer       integer.c: set_word, masks, comparisons, sums and differences, named as in C
--                 without `sdc_int_`; `value` is the number of an array. Integer/Sums,
--                 Integer/Compare and Integer/Masks treat those. Integer/Products,
--                 Integer/Remainders, Integer/Division (by one word), Integer/Montgomery,
--                 Integer/Bytes and Integer/Shifts hold further functions with their theorems,
--                 the longer ones in children; Integer/Early the ones that stop early.
--   Modes         block_cipher.c over the record `Cipher`; Modes/Cbc and Modes/Ctr have the laws
--                 that they ask of a cipher, and the theorems.
--   Hash          what sha256.c, sha512.c and sm3.c share: `Ctx` for their contexts, `absorb` for
--                 the body of `update` behind the counter, `finish` for that of `final` before the
--                 output. Hash/Blocks, Hash/Update, Hash/Final, Hash/Count and Hash/Streams treat
--                 them for any compression function. Hash/Sha256, Hash/Sha512 and Hash/Sm3 hold
--                 the functions of each file, their children the theorems; the 224 and 384 bit
--                 ones end in `_224` and `_384`. Sha256/Fips writes out FIPS 180-4, from the roots
--                 of the primes on, and Sha256/Standard compares; the specifications of the other
--                 hashes use the compression and the constants of the code. Hash/Dispatch is
--                 hash.c with oid.c and the tables of operations; Dispatch/Streamed has the
--                 interface `Hashing` that a caller relies on, Dispatch/Tables fills it,
--                 Dispatch/Search treats the search.
--   Kdf           Kdf/Hmac and Kdf/Pbkdf2 for src/kdf, with their RFCs in children.
--   Rsa           Rsa/Padding for pkcs1v15.c: `pad`, and unpad_pkcs1v15 as `unpad_signature` and
--                 `unpad_decryption`; Padding/Bytes and Padding/Scan treat its masks, and
--                 Padding/Encryption, Padding/RoundTrip and Padding/Signature what it decides.
--                 Rsa/Inner is rsa_inner.c: Inner/Crt has the recombination, Inner/Draw the numbers
--                 for blinding, Inner/Public and Inner/Private the operations, and
--                 Inner/RoundTrip both together. Rsa/Rsaes is encryption and decryption.
--   Integer/Tests, Modes/Tests, Hash/Tests, Hash/Dispatch/Tests, Kdf/Tests, Rsa/Tests,
--   Rsa/Rsaes/Tests
--                 concrete runs.
--
-- Bounds and fuel. `locate` makes at most one round for each day of the timestamp, and each round
-- of the loop takes a year of at least 365 days off; `octets 8` is enough for a `size_t`, which
-- has eight bytes; a batch of CTR takes a byte at least, so that the length is enough, as it is for
-- the blocks of a hash and for the blocks that PBKDF2 writes; a drawn number takes 32 random bytes.
-- Years are natural numbers, so that dates before the year 0, negative times of day, which the
-- guards of sdc_asn1_time_to_timestamp let through, and years that overflow an `int` are outside
-- the model. In Rsa/Inner the regions of `tmp` behind the drawn words are one list, which the draws
-- overwrite as in C; the theorems ask for primes of four words or more, where the draws stay within
-- their two regions.
--
-- Not modelled: the ciphers, SHA-3, GCM and the AEADs, curves, the generator of random numbers,
-- the initialisation and generation of RSA keys, signatures on top of the padding, the modular
-- inverse and the count of trailing zeros of integer.c, and what is pure input and output.
-- The bytes that a failed call has copied to its caller's array are not kept.
pub mod Common
pub mod Asn1
pub mod Integer
pub mod Modes
pub mod Hash
pub mod Kdf
pub mod Rsa
