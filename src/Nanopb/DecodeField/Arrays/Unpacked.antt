-- ===== src/Nanopb/DecodeField/Arrays/Unpacked.antt =====
-- A static array of which one item comes at a time.
use app_card.Base.{
  ℕ, ◌+◌, ◌*◌, ◌%◌, ◌^◌, ◌≤◌, ◌<◌, ◌≡◌, ◌∙◌, Bool-cases, inl, inr, leb, Run, ok, failed, fault,
  stuck, arith,
}
use app_card.Nanopb.Pb.{PbField}
use app_card.Nanopb.Memory.{load, store}
use app_card.Nanopb.Memory.Laws.{load-store}
use app_card.Nanopb.IStream.Safety.{IsReadable}
use app_card.Nanopb.FieldIter.{FieldIter}
use app_card.Nanopb.Decoders.{Input, FieldDecoder}
use app_card.Nanopb.DecodeField.{item_at, decode_item}
use app_card.Nanopb.DecodeField.Arrays.{
  Outside, DecodesItem, IsArray, IsFilled, store-Outside, count_kept, item-Outside,
}

-- With success the count is in range and the stream has advanced. With failure the count may be one
-- too many.
abbrev pub Adds : PbField → FieldIter → Input → Run Input (Unit {0}) (Unit {0}) → Type 0
Adds f iter s (ok a t) = IsFilled f iter s t
Adds f iter s (failed e t) =
    (load 4 t.memory iter.p_size ≤ f.array_size + 1)
    × ((x : ℕ)
        → Outside iter.p_size 4 x
        → Outside iter.p_data (f.array_size * f.data_size) x
        → t.memory x ≡ s.memory x)
Adds f iter s fault = ⊥
Adds f iter s stuck = ⊥

module _ (func : ℕ → FieldDecoder) (f : PbField) (iter : FieldIter)
    (array : IsArray func f iter) where
  -- The count went up before the item is decoded.
  abbrev counted_up : Input → Input
  counted_up s = record s {
    memory = store 4 ((load 4 s.memory iter.p_size + 1) % 2 ^ 32) s.memory iter.p_size;
  }

  count_after :
      (s : Input)
      → load 4 (counted_up s).memory iter.p_size ≡ (load 4 s.memory iter.p_size + 1) % 2 ^ 32
  count_after s =
      load-store 4 ((load 4 s.memory iter.p_size + 1) % 2 ^ 32) s.memory iter.p_size (omega arith)

  added :
      (s : Input) (r : Run Input (Unit {0}) (Unit {0}))
      → load 4 s.memory iter.p_size < f.array_size
      → DecodesItem
          (item_at f iter.p_data (load 4 s.memory iter.p_size))
          f.data_size
          (counted_up s)
          r
      → Adds f iter s r
  added s (ok a t) h (follows, less, w) =
      let size = load 4 s.memory iter.p_size in
      let kept = count_kept func f iter array size (counted_up s).memory t.memory h w in
      record {
        stream = follows;
        count = omega (arith, kept, count_after s);
        untouched = λ x out out'.
            item-Outside func f iter array size (counted_up s).memory t.memory x h w out'
            ∙ store-Outside _ s.memory iter.p_size x out;
      }
  added s (failed e t) h (follows, w) =
      let size = load 4 s.memory iter.p_size in
      let kept = count_kept func f iter array size (counted_up s).memory t.memory h w in
      (
        omega (arith, kept, count_after s),
        λ x out out'.
            item-Outside func f iter array size (counted_up s).memory t.memory x h w out'
            ∙ store-Outside _ s.memory iter.p_size x out,
      )
  added s fault h d = d
  added s stuck h d = d

  -- The decoder of one item of a static array, on any bytes of a buffer stream whose buffer holds
  -- what `bytes_left` promises, where the decoder of its items takes at least a byte for an item and
  -- keeps to the item, the array is smaller than 2 ^ 32 bytes and has its count apart from it in the
  -- structure, and the count is in range: it returns without an access outside the buffer, and with
  -- success or failure no byte was written to but those of the count and of the array. With success
  -- the count is in range and the stream has advanced; with failure the count is at most one more
  -- than the size of the array.
  pub decode_item-Adds :
      (s : Input)
      → IsReadable s.stream
      → load 4 s.memory iter.p_size ≤ f.array_size
      → Adds f iter s (decode_item func f iter s)
  unfolding decode_item
  decode_item-Adds s readable h =
      elim (Bool-cases (leb f.array_size (load 4 s.memory iter.p_size))) [
        | inl full ↦
            rw full (
              omega (arith, count_after s),
              λ x out out'. store-Outside _ s.memory iter.p_size x out,
            )
        | inr room ↦ rw room (
            added s (func (item_at f iter.p_data (load 4 s.memory iter.p_size)) (counted_up s))
              (ground arith) (array.decodes _ (counted_up s) readable))
      ]
