-- ===== src/Kdf/Hmac/Rfc.antt =====
-- src/kdf/hmac.c against RFC 2104.
use mathlib.Core.Path.{subst}
use slim_data_crypt.Common.{
  append_assoc, ℕ, zero, suc, ◌-◌, ◌≤◌, ◌≡◌, refl, ap, sym, ◌∙◌, List, [], ◌∷◌, ◌++◌, append-nil,
  length, write_at, replicate, ltb, if◌then◌else◌, Bool-cases, inl, inr, arith,
}
use slim_data_crypt.Hash.{Ctx}
use slim_data_crypt.Hash.Count.{Took}
use slim_data_crypt.Hash.Streams.{joined}
use slim_data_crypt.Hash.Sha256
use slim_data_crypt.Hash.Sha256.Streams.{sha256, init-Took, update_lem, final_lem, hash_lem}
use slim_data_crypt.Hash.Sha256.Bounds.{length-sha256}
use slim_data_crypt.Kdf.Hmac.{HmacCtx, zero_ctx, key_block, mask_key, init, update, final, hmac}

-- The key, hashed if it is longer than a block, with zeros up to the block.
unfoldable pub block_key : List ℕ → List ℕ
block_key key =
    let short = if ltb 64 (length key) then sha256 key else key in
    short ++ replicate (64 - length short) 0

-- H(K ^ opad, H(K ^ ipad, text))
unfoldable pub hmac_sha256 : List ℕ → List ℕ → List ℕ
hmac_sha256 key text =
    let k = block_key key in sha256 (mask_key 0x5c k ++ sha256 (mask_key 0x36 k ++ text))

-- Calls of `update` one after the other.
unfoldable pub feed : HmacCtx → List (List ℕ) → HmacCtx
feed c [] = c
feed c (piece ∷ pieces) = feed (update c piece) pieces

write_at_front :
    (vs : List ℕ) (n : ℕ)
    → length vs ≤ n
    → write_at 0 vs (replicate n 0) ≡ vs ++ replicate (n - length vs) 0
write_at_front [] n h = ap (λ k. replicate k 0) (let e : n ≡ n - 0 = omega arith in e)
write_at_front (v ∷ vs) zero h = absurd (omega arith)
write_at_front (v ∷ vs) (suc n) h =
    ap (λ t. v ∷ t)
      (write_at_front vs n (omega arith)
        ∙ ap (λ k. vs ++ replicate k 0)
            (let e : n - length vs ≡ suc n - suc (length vs) = omega arith in e))

key_block_lem :
    (local : Ctx ℕ) (key : List ℕ) → length local.buffer ≡ 64 → key_block local key ≡ block_key key
unfolding key_block block_key
key_block_lem local key r = elim (Bool-cases (ltb 64 (length key))) [
  | inl long ↦
      rw (long, hash_lem local key r)
        (write_at_front (sha256 key) 64 (omega (arith, length-sha256 key)))
  | inr fits ↦ rw fits (write_at_front key 64 (ground arith))
]

-- What a context holds after the key and a text.
record Keyed (c : HmacCtx) (key text : List ℕ) : Type 0 where
  inner_took : Took Sha256.compress Sha256.iv256 c.inner (mask_key 0x36 (block_key key) ++ text)
  outer_room : length c.outer.buffer ≡ 64
  outer_pad : c.opad ≡ mask_key 0x5c (block_key key)

init-Keyed :
    (local : Ctx ℕ) (key : List ℕ) → length local.buffer ≡ 64 → Keyed (init local key) key []
unfolding init
init-Keyed local key r = rw (key_block_lem local key r) (record {
  inner_took =
      subst (Took Sha256.compress Sha256.iv256 _) (sym (append-nil (mask_key 0x36 (block_key key))))
        (update_lem Sha256.iv256 (Sha256.init zero_ctx) [] (mask_key 0x36 (block_key key))
          (init-Took zero_ctx refl));
  outer_room = refl;
  outer_pad = refl;
})

update-Keyed :
    (c : HmacCtx) (key text input : List ℕ)
    → Keyed c key text
    → Keyed (update c input) key (text ++ input)
unfolding update
update-Keyed c key text input h = record {
  inner_took =
      subst (Took Sha256.compress Sha256.iv256 _)
        (append_assoc (mask_key 0x36 (block_key key)) text input)
        (update_lem Sha256.iv256 c.inner (mask_key 0x36 (block_key key) ++ text) input
          h.inner_took);
  outer_room = h.outer_room;
  outer_pad = h.outer_pad;
}

feed-Keyed :
    (c : HmacCtx) (key text : List ℕ) (pieces : List (List ℕ))
    → Keyed c key text
    → Keyed (feed c pieces) key (text ++ joined pieces)
unfolding feed joined
feed-Keyed c key text [] h = subst (Keyed c key) (sym (append-nil text)) h
feed-Keyed c key text (piece ∷ pieces) h =
    subst (Keyed (feed (update c piece) pieces) key) (append_assoc text piece (joined pieces))
      (feed-Keyed (update c piece) key (text ++ piece) pieces (update-Keyed c key text piece h))

final-Keyed :
    (c : HmacCtx) (key text : List ℕ) → Keyed c key text → (final c).1 ≡ hmac_sha256 key text
unfolding final hmac_sha256
final-Keyed c key text h =
    let first = Sha256.init c.outer in
    let second = Sha256.update first c.opad in
    let digest = (Sha256.final c.inner).1 in
    let inner_digest = final_lem c.inner (mask_key 0x36 (block_key key) ++ text) h.inner_took in
    final_lem (Sha256.update second digest) (c.opad ++ digest) (
      update_lem Sha256.iv256 second c.opad digest
        (update_lem Sha256.iv256 first [] c.opad (init-Took c.outer h.outer_room)))
    ∙ ap (λ t. sha256 (c.opad ++ t)) inner_digest
    ∙ ap (λ t. sha256 (t ++ sha256 (mask_key 0x36 (block_key key) ++ text))) h.outer_pad

-- Whatever the local context of `sdc_sha256_hash` holds in its buffer of 64 bytes: initialise with
-- any key, update with any pieces, and finish; that gives the HMAC of RFC 2104 of the pieces put
-- together.
pub feed-hmac_sha256 :
    (local : Ctx ℕ) (key : List ℕ) (pieces : List (List ℕ))
    → length local.buffer ≡ 64
    → (final (feed (init local key) pieces)).1 ≡ hmac_sha256 key (joined pieces)
feed-hmac_sha256 local key pieces r =
    final-Keyed _ key (joined pieces)
      (feed-Keyed (init local key) key [] pieces (init-Keyed local key r))

pub hmac_lem :
    (local : Ctx ℕ) (key input : List ℕ)
    → length local.buffer ≡ 64
    → hmac local key input ≡ hmac_sha256 key input
unfolding hmac feed joined
hmac_lem local key input r =
    feed-hmac_sha256 local key (input ∷ []) r ∙ ap (hmac_sha256 key) (append-nil input)

pub length-hmac_sha256 : (key text : List ℕ) → length (hmac_sha256 key text) ≡ 32
unfolding hmac_sha256
length-hmac_sha256 key text = length-sha256 _
