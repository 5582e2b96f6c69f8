-- ===== src/Nanopb/MessageDecoder/Loop.antt =====
-- The loop over the fields of the input returns on any bytes.
use app_card.Base.{
  ℕ, zero, suc, ◌<◌, List, ◌==◌, Run, ok, failed, fault, stuck, and_then, All, arith,
}
use app_card.Nanopb.Pb.{PbField}
use app_card.Nanopb.IStream.{IStream}
use app_card.Nanopb.IStream.Leaves.{IsInput, Follows-IsInput}
use app_card.Nanopb.FieldIter.Step.{IsTable}
use app_card.Nanopb.FieldIter.Inside.{IsAtField}
use app_card.Nanopb.Decoders.{Input, FieldDecoder}
use app_card.Nanopb.Decoders.Halts.{Halts, Safe, Any, Halts-trans, Halts-if}
use app_card.Nanopb.Runtime.{Runtime}
use app_card.Nanopb.DecodeField.{MessageDecoder}
use app_card.Nanopb.DecodeExtension.Find.{NoExtension}
use app_card.Nanopb.DecodeExtension.Decodable.{Decodable, IsDecodable}
use app_card.Nanopb.MessageDecoder.{Progress, Step, goes_on, at_end, finish, decode_loop}
use app_card.Nanopb.MessageDecoder.Rounds.{Rounds, decode_round-Rounds}
use app_card.Nanopb.MessageDecoder.Ends.{finish-Safe}

-- What follows a round.
round_then :
    (fs : List PbField) (end : PbField) (s : IStream) (r : Run Input (Unit {0}) Step)
    (k : Step → FieldDecoder)
    → IsInput s
    → Rounds fs end s r
    → ((q : Progress) (t : Input)
        → IsInput t.stream
        → t.stream.bytes_left < s.bytes_left
        → IsAtField fs end q.iter
        → Halts Any t.stream (k (goes_on q) t))
    → ((q : Progress) → IsAtField fs end q.iter → Safe Any (k (at_end q)))
    → Halts Any s (and_then r k)
round_then fs end s (ok (goes_on q) t) k input h next over =
    Halts-trans Any _ h.0 (next q t (Follows-IsInput h.0 input) h.1 h.2)
round_then fs end s (ok (at_end q) t) k input h next over =
    Halts-trans Any _ h.0 (over q h.1 t (Follows-IsInput h.0 input))
round_then fs end s (failed e t) k input h next over = h
round_then fs end s fault k input h next over = h
round_then fs end s stuck k input h next over = h

module _ (rt : Runtime) where
  pub decode_loop-Halts :
      (message message_noinit : MessageDecoder) (depth links at : ℕ) (fs : List PbField)
      (end : PbField)
      → IsTable fs end
      → NoExtension fs
      → All (Decodable rt (suc depth)) fs
      → ((table : List PbField) (dest : ℕ)
          → IsDecodable rt depth table
          → Safe Any (message table dest) × Safe Any (message_noinit table dest))
      → (fuel : ℕ) (p : Progress) (s : Input) → IsAtField fs end p.iter
      → IsInput s.stream
      → s.stream.bytes_left < fuel
      → Halts Any s.stream (decode_loop rt message message_noinit (suc depth) links at fuel p s)
  unfolding decode_loop
  decode_loop-Halts message message_noinit depth links at fs end t plain fields decodes = loop
    where
      loop :
          (fuel : ℕ) (p : Progress) (s : Input)
          → IsAtField fs end p.iter
          → IsInput s.stream
          → s.stream.bytes_left < fuel
          → Halts Any s.stream (decode_loop rt message message_noinit (suc depth) links at fuel p s)
      loop zero p s here input enough = absurd (omega arith)
      loop (suc fuel) p s here input enough =
          let over : (q : Progress)
              → IsAtField fs end q.iter
              → Safe Any (finish rt message message_noinit (suc depth) links at q) =
            finish-Safe fs end t rt message message_noinit (suc depth) links at in
          Halts-if Any s (s.stream.bytes_left == 0) _ _ (λ _. over p here s input)
            λ _.
              round_then fs end s.stream _ _ input
                (decode_round-Rounds fs end rt message message_noinit depth links at t plain fields
                  decodes p s here input)
                (λ q u input' less here'. loop fuel q u here' input' (omega arith)) over
