-- ===== src/Nanopb/RoundTrip/Loop.antt =====
-- What the loop over the wire format of required numbers leaves, and a round of it.
use app_card.Base.{
  ℕ, suc, ◌+◌, ◌^◌, ◌<◌, ◌≡◌, refl, ◌∙◌, ap, sym, true, List, [], ◌∷◌, ◌++◌, append_assoc, length,
  length-append, ltb, Run, arith, subst,
}
use app_card.Nanopb.Pb.{PbField}
use app_card.Nanopb.Memory.{Memory, load, store}
use app_card.Nanopb.Memory.Laws.{load-same, load-store, load-lt, store-below}
use app_card.Nanopb.IStream.{IStream, buf_read_callback}
use app_card.Nanopb.FieldIter.{FieldIter, advanced}
use app_card.Nanopb.FieldIter.Step.{advanced_pos}
use app_card.Nanopb.Environment.{Environment}
use app_card.Nanopb.Encoders.Emit.{IsBytes}
use app_card.Nanopb.Decoders.{Input, FieldDecoder}
use app_card.Nanopb.Runtime.{Runtime}
use app_card.Nanopb.DecodeField.{MessageDecoder}
use app_card.Nanopb.MessageDecoder.{Progress, note_required}
use app_card.Nanopb.MessageDecoder.Words.{marked}
use app_card.Nanopb.RoundTrip.Scalar.{IsNumber}
use app_card.Nanopb.RoundTrip.Round.{noted}
use app_card.Nanopb.RoundTrip.Layout.{span, Agree, below}
use app_card.Nanopb.RoundTrip.Takes.{stored_at, advanced_number}
use app_card.Nanopb.RoundTrip.Finish.{HasSeen}

-- The outcome `v` of an input that was taken up to `rest`, with the numbers of the fields stored from
-- `b` on.
pub record Filled (v : FieldDecoder) (m : Memory) (fs : List PbField) (a b : ℕ) (rest : List ℕ)
    (s : Input) (r : Run Input (Unit {0}) (Unit {0})) : Type 0 where
  pub to : Input
  pub result : r ≡ v to
  pub stream : to.stream ≡ (let t = s.stream in record t { state = rest; bytes_left = 0 })
  pub agree : Agree m to.memory fs a b
  pub untouched : (x : ℕ) → x < b → to.memory x ≡ s.memory x

-- The stream in front of the wire format of fields.
pub record HoldsJust (bs rest : List ℕ) (s : IStream) : Type 0 where
  pub callback : s.callback ≡ buf_read_callback
  pub state : s.state ≡ bs ++ rest
  pub bytes_left : s.bytes_left ≡ length bs

pub at_end_of :
    (rest : List ℕ) (s : IStream)
    → s.state ≡ rest
    → s.bytes_left ≡ 0
    → s ≡ record s { state = rest; bytes_left = 0 }
at_end_of rest s e l =
    ap (λ (x : List ℕ). record s { state = x; bytes_left = s.bytes_left }) e
    ∙ ap (λ (n : ℕ). record s { state = rest; bytes_left = n }) l

pub noted_seen :
    (n : ℕ) (g : PbField) (iter : FieldIter) (p : Progress)
    → IsNumber g
    → iter.required_field_index ≡ n
    → n < 64
    → p.seen ≡ marked (below n)
    → note_required g iter p.seen ≡ marked (below (suc n))
unfolding marked
noted_seen n g iter p number index few seen =
    let in_range : ltb n 64 ≡ true = ground arith in
    rw (number.required, index, in_range, seen) refl

module _ (rt : Runtime) (env : Environment) (m : Memory) (is_bytes : IsBytes m)
    (message message_noinit : MessageDecoder) (depth links at : ℕ) (behind : List PbField)
    (first : PbField) (v : FieldDecoder) where
  -- The place behind one more field.
  pub HasSeen-next :
      (front : List PbField) (f g : PbField) (back : List PbField) (b : ℕ) (p : Progress)
      → HasSeen front f (g ∷ back) behind first b p
      → IsNumber f
      → IsNumber g
      → b + span (g ∷ back) < 2 ^ 64
      → length front + length (g ∷ back) < 64
      → HasSeen
          (front ++ (f ∷ []))
          g
          back
          behind
          first
          (b + g.data_offset + g.data_size)
          (noted g (advanced f g p.iter) p)
  HasSeen-next front f g back b p h n n' fits few =
      let (moved, table) = advanced_pos f g p.iter in
      let (place, index) = advanced_number f g p.iter n in
      let size : length (front ++ (f ∷ [])) ≡ suc (length front) =
        omega (arith, length-append front (f ∷ [])) in
      record {
        table = table ∙ h.table ∙ sym (append_assoc front (f ∷ []) (g ∷ (back ++ behind)));
        pos = omega (arith, moved, h.pos, size);
        data_end = omega (arith, place, h.data_end, fits);
        index = omega (arith, index, h.index, size, few);
        seen =
            subst (λ (k : ℕ). note_required g (advanced f g p.iter) p.seen ≡ marked (below (suc k)))
              (sym size)
              (noted_seen (suc (length front)) g (advanced f g p.iter) p n'
                (omega (arith, index, h.index, few)) (omega (arith, few)) h.seen);
        no_count = h.no_count;
        begins = rw table (h.begins);
      }

  -- The fields behind a field that was stored.
  pub fills_more :
      (g : PbField) (back : List PbField) (a b : ℕ) (bs more rest : List ℕ) (s : Input) (p : ℕ)
      (r r' : Run Input (Unit {0}) (Unit {0}))
      → p ≡ b + g.data_offset
      → r ≡ r'
      → Filled v m back
          (a + g.data_offset + g.data_size)
          (b + g.data_offset + g.data_size)
          rest
          (stored_at g (load g.data_size m (a + g.data_offset)) bs more s p)
          r'
      → Filled v m (g ∷ back) a b rest s r
  fills_more g back a b bs more rest s p r r' place e h =
      let n = load g.data_size m (a + g.data_offset) in
      record {
        to = h.to;
        result = e ∙ h.result;
        stream = h.stream;
        agree = (
          load-same g.data_size (store g.data_size n s.memory p) h.to.memory (b + g.data_offset)
                (λ x lo hi. h.untouched x (omega arith))
              ∙ subst (λ (q : ℕ). load g.data_size (store g.data_size n s.memory p) q ≡ n) place
                  (load-store g.data_size n s.memory p
                    (load-lt g.data_size m (a + g.data_offset) is_bytes)),
          h.agree,
        );
        untouched = λ x lt.
            h.untouched x (omega arith)
            ∙ store-below g.data_size n s.memory p x (omega (arith, place));
      }
