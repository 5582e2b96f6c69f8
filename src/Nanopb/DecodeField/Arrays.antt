-- ===== src/Nanopb/DecodeField/Arrays.antt =====
-- The decoding of a static array keeps to the array and its count, and the count never passes the
-- size of the array.
pub mod Unpacked
use app_card.Base.{
  ℕ, zero, suc, ◌+◌, ◌*◌, ◌%◌, ◌^◌, ◌≤◌, ◌<◌, ◌≡◌, refl, ◌∙◌, ◌⊎◌, inl, inr, ◌&&◌, Bool-cases, ltb,
  ◌==◌, Run, ok, failed, fault, stuck, and_then, arith,
}
use native.Mathlib.Nat.{mul-le-mul_right}
use app_card.Nanopb.Pb.{PbField}
use app_card.Nanopb.Memory.{Memory, load, store, le_bytes}
use app_card.Nanopb.Memory.Laws.{load-same, load-store, length-le_bytes}
use app_card.Nanopb.IStream.{IStream}
use app_card.Nanopb.IStream.Safety.{
  Follows, IsReadable, Follows-refl, Follows-trans, Follows-IsReadable,
}
use app_card.Nanopb.Substream.{pb_make_string_substream}
use app_card.Nanopb.Substream.Opens.{Closes, Opens, pb_make_string_substream-Opens}
use app_card.Nanopb.FieldIter.{FieldIter}
use app_card.Nanopb.Decoders.{Input, FieldDecoder, on_stream}
use app_card.Nanopb.Decoders.Confined.{Within, same, Within-outside, store_bytes-Within}
use app_card.Nanopb.DecodeField.{
  close_with, count_up, item_at, packed_loop, packed_end, decode_packed,
}

-- An address that is none of the `n` from `p` on.
abbrev pub Outside : ℕ → ℕ → ℕ → Type 0
Outside p n x = (x < p) ⊎ (p + n ≤ x)

-- An item was decoded: the stream advanced, on success by a byte at least, and only the item was
-- written to.
abbrev pub DecodesItem : ℕ → ℕ → Input → Run Input (Unit {0}) (Unit {0}) → Type 0
DecodesItem a n s (ok v t) =
    Follows s.stream t.stream
    × (t.stream.bytes_left < s.stream.bytes_left)
    × Within a n s.memory t.memory
DecodesItem a n s (failed e t) = Follows s.stream t.stream × Within a n s.memory t.memory
DecodesItem a n s fault = ⊥
DecodesItem a n s stuck = ⊥

-- A static array with its count in the structure, and the decoder of its items.
pub record IsArray (func : ℕ → FieldDecoder) (f : PbField) (iter : FieldIter) : Type 0 where
  pub decodes : (a : ℕ) (s : Input) → IsReadable s.stream → DecodesItem a f.data_size s (func a s)
  pub small : f.array_size * f.data_size < 2 ^ 32
  pub fits : iter.p_data + f.array_size * f.data_size < 2 ^ 64
  pub entries : f.array_size < 2 ^ 32
  pub apart :
      (iter.p_size + 4 ≤ iter.p_data) ⊎ (iter.p_data + f.array_size * f.data_size ≤ iter.p_size)

-- From `s` on only the array and its count were written to, and the count is in range.
pub record IsFilled (f : PbField) (iter : FieldIter) (s t : Input) : Type 0 where
  pub stream : Follows s.stream t.stream
  pub count : load 4 t.memory iter.p_size ≤ f.array_size
  pub untouched :
      (x : ℕ)
      → Outside iter.p_size 4 x
      → Outside iter.p_data (f.array_size * f.data_size) x
      → t.memory x ≡ s.memory x

-- A return with success or failure.
abbrev pub Fills : PbField → FieldIter → Input → Run Input (Unit {0}) (Unit {0}) → Type 0
Fills f iter s (ok a t) = IsFilled f iter s t
Fills f iter s (failed e t) = IsFilled f iter s t
Fills f iter s fault = ⊥
Fills f iter s stuck = ⊥

-- With success also the stream has advanced.
abbrev pub Keeps : PbField → FieldIter → Input → Run Input (Unit {0}) (Unit {0}) → Type 0
Keeps f iter s (ok a t) = IsFilled f iter s t
Keeps f iter s (failed e t) =
    (load 4 t.memory iter.p_size ≤ f.array_size)
    × ((x : ℕ)
        → Outside iter.p_size 4 x
        → Outside iter.p_data (f.array_size * f.data_size) x
        → t.memory x ≡ s.memory x)
Keeps f iter s fault = ⊥
Keeps f iter s stuck = ⊥

store-Outside : (v : ℕ) (m : Memory) (a x : ℕ) → Outside a 4 x → store 4 v m a x ≡ m x
unfolding store
store-Outside v m a x out =
    Within-outside a 4 m _ x
      (store_bytes-Within a 4 m m (le_bytes 4 v) a (omega arith)
        (omega (arith, length-le_bytes 4 v)) same)
      out

pub IsFilled-trans :
    {f : PbField} {iter : FieldIter} {s t u : Input}
    → IsFilled f iter s t
    → IsFilled f iter t u
    → IsFilled f iter s u
IsFilled-trans p q = record {
  stream = Follows-trans p.stream q.stream;
  count = q.count;
  untouched = λ x out out'. q.untouched x out out' ∙ p.untouched x out out';
}

pub Fills-trans :
    {f : PbField} {iter : FieldIter} {s t : Input} (r : Run Input (Unit {0}) (Unit {0}))
    → IsFilled f iter s t
    → Fills f iter t r
    → Fills f iter s r
Fills-trans (ok a u) p q = IsFilled-trans p q
Fills-trans (failed e u) p q = IsFilled-trans p q
Fills-trans fault p q = q
Fills-trans stuck p q = q

module _ (func : ℕ → FieldDecoder) (f : PbField) (iter : FieldIter)
    (array : IsArray func f iter) where
  -- The item behind the last is in the array, and its address does not wrap.
  item_inside :
      (size : ℕ)
      → size < f.array_size
      → (item_at f iter.p_data size ≡ iter.p_data + size * f.data_size)
        × (size * f.data_size + f.data_size ≤ f.array_size * f.data_size)
  item_inside size h =
      let inside : suc size * f.data_size ≤ f.array_size * f.data_size =
        mul-le-mul_right f.data_size h in
      (omega (arith, array.small, array.fits, inside), omega (arith, inside))

  -- What is written to an item is not written outside the array.
  item-Outside :
      (size : ℕ) (m m' : Memory) (x : ℕ)
      → size < f.array_size
      → Within (item_at f iter.p_data size) f.data_size m m'
      → Outside iter.p_data (f.array_size * f.data_size) x
      → m' x ≡ m x
  item-Outside size m m' x h w out =
      let (address, inside) = item_inside size h in
      Within-outside (item_at f iter.p_data size) f.data_size m m' x w
        (ground (arith, address, inside, out))

  count_kept :
      (size : ℕ) (m m' : Memory)
      → size < f.array_size
      → Within (item_at f iter.p_data size) f.data_size m m'
      → load 4 m' iter.p_size ≡ load 4 m iter.p_size
  count_kept size m m' h w =
      load-same 4 m m' iter.p_size
        λ x lo hi. item-Outside size m m' x h w (ground (arith, array.apart))

  -- An item was decoded, and the count goes up.
  counted :
      (s t : Input)
      → load 4 s.memory iter.p_size < f.array_size
      → Follows s.stream t.stream
      → Within (item_at f iter.p_data (load 4 s.memory iter.p_size)) f.data_size s.memory t.memory
      → IsFilled f iter s (record t {
        memory = store 4 ((load 4 t.memory iter.p_size + 1) % 2 ^ 32) t.memory iter.p_size;
      })
  counted s t h follows w =
      let size = load 4 s.memory iter.p_size in
      let kept = count_kept size s.memory t.memory h w in
      let stored =
        load-store 4 ((load 4 t.memory iter.p_size + 1) % 2 ^ 32) t.memory iter.p_size
          (omega arith) in
      record {
        stream = follows;
        count = omega (arith, stored, kept, array.entries);
        untouched = λ x out out'.
            store-Outside _ t.memory iter.p_size x out
            ∙ item-Outside size s.memory t.memory x h w out';
      }

  failed_item :
      (s t : Input)
      → load 4 s.memory iter.p_size < f.array_size
      → Follows s.stream t.stream
      → Within (item_at f iter.p_data (load 4 s.memory iter.p_size)) f.data_size s.memory t.memory
      → IsFilled f iter s t
  failed_item s t h follows w = record {
    stream = follows;
    count = omega (arith, count_kept (load 4 s.memory iter.p_size) s.memory t.memory h w);
    untouched =
        λ x out out'. item-Outside (load 4 s.memory iter.p_size) s.memory t.memory x h w out';
  }

  step :
      (s : Input) (r : Run Input (Unit {0}) (Unit {0})) (k : FieldDecoder)
      → load 4 s.memory iter.p_size < f.array_size
      → IsReadable s.stream
      → DecodesItem (item_at f iter.p_data (load 4 s.memory iter.p_size)) f.data_size s r
      → ((t : Input)
          → IsReadable t.stream
          → t.stream.bytes_left < s.stream.bytes_left
          → load 4 t.memory iter.p_size ≤ f.array_size
          → Fills f iter t (k t))
      → Fills f iter s (and_then (and_then r (λ _. count_up iter.p_size)) (λ _. k))
  step s (ok a t) k h readable (follows, less, w) next =
      let filled = counted s t h follows w in
      Fills-trans _ filled (next _ (Follows-IsReadable follows readable) less filled.count)
  step s (failed e t) k h readable (follows, w) next = failed_item s t h follows w
  step s fault k h readable d next = d
  step s stuck k h readable d next = d

  packed_loop-Fills :
      (fuel : ℕ) (s : Input)
      → IsReadable s.stream
      → s.stream.bytes_left < fuel
      → load 4 s.memory iter.p_size ≤ f.array_size
      → Fills f iter s (packed_loop func f iter fuel s)
  unfolding packed_loop
  packed_loop-Fills zero s readable enough h = absurd (omega arith)
  packed_loop-Fills (suc fuel) s readable enough h =
      let size = load 4 s.memory iter.p_size in
      elim (Bool-cases (ltb 0 s.stream.bytes_left && ltb size f.array_size)) [
        | inl more ↦ rw more (
            step s (func (item_at f iter.p_data size) s) (packed_loop func f iter fuel)
              (ground (arith, more)) readable (array.decodes _ s readable)
              λ t readable' less h'. packed_loop-Fills fuel t readable' (omega arith) h')
        | inr done ↦
            rw done
              (record { stream = Follows-refl s.stream; count = h; untouched = λ x out out'. refl })
      ]

  -- The end of the array, where `t` is what was left of the stream.
  packed_end-Keeps :
      (s : Input) (sub t : IStream) (r : Run Input (Unit {0}) (Unit {0}))
      → Closes s.stream sub t
      → Fills f iter (record s { stream = sub }) r
      → Keeps f iter s (packed_end t r)
  unfolding packed_end close_with
  packed_end-Keeps s sub t (ok a u) c h = elim (Bool-cases (u.stream.bytes_left == 0)) [
    | inl done ↦
        let (t', closed, follows) = c.close u.stream h.stream in
        rw (done, closed) (record { stream = follows; count = h.count; untouched = h.untouched })
    | inr more ↦ rw more (h.count, h.untouched)
  ]
  packed_end-Keeps s sub t (failed e u) c h = elim (Bool-cases (u.stream.bytes_left == 0)) [
    | inl done ↦
        let (t', closed, follows) = c.close u.stream h.stream in
        rw (done, closed) (h.count, h.untouched)
    | inr more ↦ rw more (h.count, h.untouched)
  ]
  packed_end-Keeps s sub t fault c h = h
  packed_end-Keeps s sub t stuck c h = h

  -- The decoder of a packed static array, on any bytes of a buffer stream whose buffer holds what
  -- `bytes_left` promises, where the decoder of its items takes at least a byte for an item and
  -- keeps to the item, the array is smaller than 2 ^ 32 bytes and has its count apart from it in the
  -- structure, and the count is in range: it returns without an access outside the buffer, and with
  -- success or failure the count is in range and no byte was written to but those of the count and
  -- of the array. With success it has taken bytes off the front of the stream.
  pub decode_packed-Keeps :
      (s : Input)
      → IsReadable s.stream
      → load 4 s.memory iter.p_size ≤ f.array_size
      → Keeps f iter s (decode_packed func f iter s)
  unfolding decode_packed Opens
  decode_packed-Keeps s readable h =
      opened (pb_make_string_substream s.stream) (pb_make_string_substream-Opens s.stream readable)
    where
      opened :
          (r : Run IStream (Unit {0}) IStream)
          → Opens s.stream r
          → Keeps f iter s (
              and_then (on_stream s.memory r) λ sub u.
                packed_end u.stream
                  (packed_loop func f iter (sub.bytes_left + 1) (record u { stream = sub })))
      opened (ok sub t) c = packed_end-Keeps s sub t _ c (
          packed_loop-Fills (sub.bytes_left + 1) (record s { stream = sub }) c.readable
            (omega arith) h)
      opened (failed e t) c = (h, λ x out out'. refl)
      opened fault c = c
      opened stuck c = c
