-- ===== src/Asn1/Writer/Containers.antt =====
-- `begin`, the members and `end` of a container, with its header.
use slim_data_crypt.Common.{
  ℕ, ◌-◌, ◌^◌, ◌≤◌, ◌<◌, ◌≡◌, refl, ap, ◌∙◌, false, not, List, length, arith, ltb, ◌==◌, Bool-cases,
  inl, inr, done, Call, ◌>>=◌, ◌>>◌, next,
}
use mathlib.Core.Bool.{◌||◌}
use slim_data_crypt.Asn1.Der.{tlv}
use slim_data_crypt.Asn1.Writer.{Writer, write_tlv_header_rev}
use slim_data_crypt.Asn1.Writer.Nested.{Mark, begin, end_container}
use slim_data_crypt.Asn1.Writer.Prepend.{IsReady, emit, Prepends, Prepends-seq}
use slim_data_crypt.Asn1.Writer.Header.{write_tlv_header_rev-Prepends}

-- A caller's use of the pair.
abbrev pub contained : ℕ → Call Writer (Unit {0}) → Call Writer (Unit {0})
contained tag members = begin >>= λ mark. members >> end_container tag mark

abbrev mark_of : Writer → Mark
mark_of w = record { base = w.base; length = w.pos; pos = w.pos }

begin_ready : (w : Writer) → IsReady w → begin w ≡ done (mark_of w) w
unfolding begin
begin_ready w r = ground (arith, r.no_error)

-- After the members `end` writes a header, of the members' length.
end_container-header :
    (tag : ℕ) (bs : List ℕ) (w : Writer)
    → IsReady w
    → length bs ≤ w.pos
    → end_container tag (mark_of w) (emit bs w) ≡ write_tlv_header_rev tag (length bs) (emit bs w)
unfolding end_container write_tlv_header_rev emit
end_container-header tag bs w r h =
    let size : w.pos - (w.pos - length bs) ≡ length bs = omega arith in
    let sane : (not (w.base == w.base)
          || ltb w.length w.pos
          || not (w.pos == w.pos)
          || ltb w.pos (w.pos - length bs))
        ≡ false =
      ground (arith, r.in_buffer) in
    rw (r.no_error, sane, size) refl

module _ (tag : ℕ) {members : Call Writer (Unit {0})} {bs : List ℕ} (prepends : Prepends members bs)
    (small : length bs < 2 ^ 64) where
  headed : Prepends (members >> write_tlv_header_rev tag (length bs)) (tlv tag bs)
  headed = unfold tlv in Prepends-seq prepends (write_tlv_header_rev-Prepends tag (length bs) small)

  -- On a ready writer the pair does what the members and then the header do.
  contained-headed :
      (w : Writer)
      → IsReady w
      → contained tag members w ≡ (members >> write_tlv_header_rev tag (length bs)) w
  contained-headed w r =
      ap (λ o. next o λ mark. members >> end_container tag mark) (begin_ready w r)
      ∙ elim (Bool-cases (ltb w.pos (length bs))) [
        | inl e ↦ let failed = (prepends.short w r (ground arith)).fails in rw failed refl
        | inr e ↦
            let room : length bs ≤ w.pos = ground arith in
            rw (prepends.fits w r room) (end_container-header tag bs w r room)
      ]

  pub contained-Prepends : Prepends (contained tag members) (tlv tag bs)
  contained-Prepends = record {
    fits = λ w r h. contained-headed w r ∙ headed.fits w r h;
    short = λ w r h.
        let over = headed.short w r h in
        record {
          last = over.last;
          fails = contained-headed w r ∙ over.fails;
          broken = over.broken;
        };
    refused = λ w e. unfold begin in rw e;
  }
