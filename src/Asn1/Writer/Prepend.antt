-- ===== src/Asn1/Writer/Prepend.antt =====
-- What it means that a write prepends given bytes, and that such writes compose.
use slim_data_crypt.Common.{
  ℕ, zero, suc, ◌+◌, ◌-◌, ◌^◌, ◌≤◌, ◌<◌, ◌≡◌, refl, ap, sym, ◌∙◌, true, false, List, [], ◌∷◌, ◌++◌,
  length, length-append, length-write_at, drop-drop, drop_of_append, drop, write_at, arith, ltb,
  Bool-cases, inl, inr, done, fail, Call, ◌>>◌,
}
use slim_data_crypt.Common.{buffer_too_small, write_error}
use slim_data_crypt.Asn1.Writer.{Writer}

-- A writer that has met no error, over the whole of its buffer.
pub record IsReady (w : Writer) : Type 0 where
  pub no_error : w.error ≡ false
  pub in_buffer : w.pos ≤ w.length
  pub whole : length w.bytes ≡ w.length
  pub word : w.length < 2 ^ 64

-- `w` with `bs` put in front of its output.
unfoldable pub emit : List ℕ → Writer → Writer
emit bs w = record w { pos = w.pos - length bs; bytes = write_at (w.pos - length bs) bs w.bytes }

write_at-nil : (i : ℕ) (xs : List ℕ) → write_at i [] xs ≡ xs
write_at-nil zero xs = refl
write_at-nil (suc i) [] = refl
write_at-nil (suc i) (x ∷ xs) = ap (λ t. x ∷ t) (write_at-nil i xs)

pub write_at_nothing : (i : ℕ) (vs xs : List ℕ) → length vs ≡ 0 → write_at i vs xs ≡ xs
write_at_nothing i [] xs e = write_at-nil i xs
write_at_nothing i (v ∷ vs) xs e = absurd (omega arith)

-- Two copies, the second right below the first, are one.
write_at-write_at :
    (i j : ℕ) (us vs xs : List ℕ)
    → j ≡ i + length us
    → write_at i us (write_at j vs xs) ≡ write_at i (us ++ vs) xs
write_at-write_at zero zero [] vs xs e = refl
write_at-write_at zero zero (u ∷ us) vs xs e = absurd (omega arith)
write_at-write_at zero (suc j) [] vs xs e = absurd (omega arith)
write_at-write_at zero (suc j) (u ∷ us) vs [] e = refl
write_at-write_at zero (suc j) (u ∷ us) vs (x ∷ xs) e =
    ap (λ t. u ∷ t) (write_at-write_at zero j us vs xs (omega arith))
write_at-write_at (suc i) zero us vs xs e = absurd (omega arith)
write_at-write_at (suc i) (suc j) us vs [] e = refl
write_at-write_at (suc i) (suc j) us vs (x ∷ xs) e =
    ap (λ t. x ∷ t) (write_at-write_at i j us vs xs (omega arith))

-- What stands from the copied place on.
drop-write_at :
    (i : ℕ) (vs xs : List ℕ)
    → i + length vs ≤ length xs
    → drop i (write_at i vs xs) ≡ vs ++ drop (i + length vs) xs
drop-write_at zero [] xs h = ap (λ t. drop t xs) (let e : 0 ≡ 0 + 0 = omega arith in e)
drop-write_at zero (v ∷ vs) [] h = absurd (omega arith)
drop-write_at zero (v ∷ vs) (x ∷ xs) h =
    ap (λ t. v ∷ t) (drop-write_at zero vs xs (omega arith) ∙ ap (λ t. vs ++ t) shifted)
  where
    shifted : drop (0 + length vs) xs ≡ drop (0 + suc (length vs)) (x ∷ xs)
    shifted =
        ap (λ t. drop t (x ∷ xs))
          (let e : suc (0 + length vs) ≡ 0 + suc (length vs) = omega arith in e)
drop-write_at (suc i) vs [] h = absurd (omega arith)
drop-write_at (suc i) vs (x ∷ xs) h =
    drop-write_at i vs xs (omega arith)
    ∙ ap (λ t. vs ++ drop t (x ∷ xs))
        (let e : suc (i + length vs) ≡ suc i + length vs = omega arith in e)

pub emit-IsReady : (bs : List ℕ) (w : Writer) → IsReady w → IsReady (emit bs w)
unfolding emit
emit-IsReady bs w r = record {
  no_error = r.no_error;
  in_buffer = omega arith;
  whole = length-write_at (w.pos - length bs) bs w.bytes ∙ r.whole;
  word = r.word;
}

-- The output of a writer: the buffer from `pos` on.
abbrev pub output : Writer → List ℕ
output w = drop w.pos w.bytes

pub output-emit :
    (bs : List ℕ) (w : Writer) → IsReady w → length bs ≤ w.pos → output (emit bs w) ≡ bs ++ output w
unfolding emit
output-emit bs w r h =
    drop-write_at (w.pos - length bs) bs w.bytes (omega (arith, r.in_buffer, r.whole))
    ∙ ap (λ t. bs ++ drop t w.bytes)
        (let e : w.pos - length bs + length bs ≡ w.pos = omega arith in e)

emit-emit :
    (bs cs : List ℕ) (w : Writer)
    → length cs + length bs ≤ w.pos
    → emit cs (emit bs w) ≡ emit (cs ++ bs) w
unfolding emit
emit-emit bs cs w h = λ i. record w { pos = place i; bytes = copied i }
  where
    place : w.pos - length bs - length cs ≡ w.pos - length (cs ++ bs)
    place = omega (arith, length-append cs bs)

    copied :
        write_at (w.pos - length bs - length cs) cs (write_at (w.pos - length bs) bs w.bytes)
        ≡ write_at (w.pos - length (cs ++ bs)) (cs ++ bs) w.bytes
    copied =
        write_at-write_at (w.pos - length bs - length cs) (w.pos - length bs) cs bs w.bytes
          (omega arith)
        ∙ ap (λ t. write_at t (cs ++ bs) w.bytes) place

-- The writer has failed, and its output still ends with what `w` had put out.
pub record IsBroken (w v : Writer) : Type 0 where
  pub stopped : v.error ≡ true
  pub kept : drop w.pos v.bytes ≡ output w

pub record Overflows (m : Call Writer (Unit {0})) (w : Writer) : Type 0 where
  pub last : Writer
  pub fails : m w ≡ fail buffer_too_small last
  pub broken : IsBroken w last

-- `m` prepends `bs` if they fit, else it reports that and stops the writer; a stopped writer
-- refuses.
pub record Prepends (m : Call Writer (Unit {0})) (bs : List ℕ) : Type 0 where
  pub fits : (w : Writer) → IsReady w → length bs ≤ w.pos → m w ≡ done tt (emit bs w)
  pub short : (w : Writer) → IsReady w → w.pos < length bs → Overflows m w
  pub refused : (w : Writer) → w.error ≡ true → m w ≡ fail write_error w

-- What is kept behind the new bytes is kept behind the old ones.
kept_behind :
    (bs v : List ℕ) (w : Writer)
    → IsReady w
    → length bs ≤ w.pos
    → drop (emit bs w).pos v ≡ output (emit bs w)
    → drop w.pos v ≡ output w
unfolding emit
kept_behind bs v w r h e =
    ap (λ t. drop t v) (let p : w.pos ≡ w.pos - length bs + length bs = omega arith in p)
    ∙ sym (drop-drop (length bs) (w.pos - length bs) v)
    ∙ ap (drop (length bs)) (e ∙ output-emit bs w r h)
    ∙ drop_of_append bs (output w) (length bs) refl

module _ {m k : Call Writer (Unit {0})} {bs cs : List ℕ} (first : Prepends m bs)
    (second : Prepends k cs) where
  seq_fits :
      (w : Writer)
      → IsReady w
      → length (cs ++ bs) ≤ w.pos
      → (m >> k) w ≡ done tt (emit (cs ++ bs) w)
  seq_fits w r h = rw (first.fits w r (omega (arith, length-append cs bs))) (
      second.fits (emit bs w) (emit-IsReady bs w r)
        (unfold emit in omega (arith, length-append cs bs))
      ∙ ap (done tt) (emit-emit bs cs w (omega (arith, length-append cs bs))))

  seq_short : (w : Writer) → IsReady w → w.pos < length (cs ++ bs) → Overflows (m >> k) w
  seq_short w r h = elim (Bool-cases (ltb w.pos (length bs))) [
    | inl e ↦
        let over = first.short w r (ground arith) in
        record { last = over.last; fails = rw over.fails; broken = over.broken }
    | inr e ↦
        let fit : length bs ≤ w.pos = ground arith in
        let over =
          second.short (emit bs w) (emit-IsReady bs w r)
            (unfold emit in omega (arith, length-append cs bs)) in
        record {
          last = over.last;
          fails = rw (first.fits w r fit) over.fails;
          broken = record {
            stopped = over.broken.stopped;
            kept = kept_behind bs over.last.bytes w r fit over.broken.kept;
          };
        }
  ]

  pub Prepends-seq : Prepends (m >> k) (cs ++ bs)
  Prepends-seq = record {
    fits = seq_fits;
    short = seq_short;
    refused = λ w e. rw (first.refused w e);
  }
