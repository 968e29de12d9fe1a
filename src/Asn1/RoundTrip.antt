-- ===== src/Asn1/RoundTrip.antt =====
-- src/asn1/asn1write.c and src/asn1/asn1parse.c together.
pub mod Values
pub mod Times
pub mod Dates
use slim_data_crypt.Common.{
  ℕ, zero, suc, ◌+◌, ◌-◌, ◌*◌, ◌^◌, ◌≤◌, ◌<◌, ◌≡◌, refl, ap, sym, ◌∙◌, Bool, true, false, List, [],
  ◌∷◌, ◌++◌, length, length-append, length-drop, arith, ltb, leb, ◌==◌, drop, take, take_all, some,
  Option, All-drop, All-append, Call, done, if◌then◌else◌, All, IsByte, append_assoc,
}
use slim_data_crypt.Asn1.Writer.{Writer, writer_length}
use slim_data_crypt.Asn1.Writer.Prepend.{IsReady, emit, emit-IsReady, output, output-emit, Prepends}
use slim_data_crypt.Asn1.Reader.{Reader, reader_init}
use slim_data_crypt.Asn1.Reader.View.{Holds, Reads}

-- A reader over a writer's output: `sdc_asn1_writer_data` and `sdc_asn1_writer_length`.
unfoldable pub reader_of : Writer → Reader
reader_of w = reader_init (output w) (writer_length w)

pub reader_of-Holds :
    (w : Writer) → IsReady w → All IsByte (output w) → Holds (reader_of w) (output w)
unfolding reader_of reader_init writer_length
reader_of-Holds w r bytes =
    let size : (if ltb w.length w.pos then 0 else w.length - w.pos) ≡ w.length - w.pos =
      ground (arith, r.in_buffer) in
    let exact : length (output w) ≡ w.length - w.pos =
      omega (arith, length-drop w.pos w.bytes, r.whole) in
    record {
      valid = record {
        in_order = omega arith;
        backed = omega (arith, size, exact);
        word = omega (arith, size, r.word);
        of_bytes = bytes;
      };
      left = take_all (output w) _ (omega (arith, size, exact));
    }

-- `put` succeeds, and a reader over the output then has the property `P`.
pub record Written {ℓ} (put : Call Writer (Unit {0})) (w : Writer) (P : Reader → Type ℓ)
    : Type ℓ where
  pub after : Writer
  pub wrote : put w ≡ done tt after
  pub seen : P (reader_of after)

-- `get` on the output returns `a` and leaves what had been written before.
abbrev pub RoundTrips {ℓ} :
    {A : Type ℓ} → Call Writer (Unit {0}) → Call Reader A → Writer → A → Type ℓ
RoundTrips put get w a = Written put w (λ r. Reads get r a (output w))

pub Prepends-Written {ℓ} :
    {put : Call Writer (Unit {0})} (w : Writer) (bs : List ℕ) (P : Reader → Type ℓ)
    → Prepends put bs
    → IsReady w
    → All IsByte w.bytes
    → All IsByte bs
    → length bs ≤ w.pos
    → ((r : Reader) → Holds r (bs ++ output w) → P r)
    → Written put w P
Prepends-Written w bs P prepends ready bytes fresh room read =
    let shown : output (emit bs w) ≡ bs ++ output w = output-emit bs w ready room in
    let seen =
      reader_of-Holds (emit bs w) (emit-IsReady bs w ready)
        (rw shown (All-append IsByte bs (output w) fresh (All-drop IsByte w.pos w.bytes bytes))) in
    record {
      after = emit bs w;
      wrote = prepends.fits w ready room;
      seen = read (reader_of (emit bs w)) (record { valid = seen.valid; left = seen.left ∙ shown });
    }
