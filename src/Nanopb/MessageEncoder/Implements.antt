-- ===== src/Nanopb/MessageEncoder/Implements.antt =====
-- An encoder implements a part of the wire format: where the format has bytes, it sends them.
use app_card.Base.{
  ℕ, ◌^◌, ◌<◌, ◌≡◌, refl, ap, ◌∙◌, sym, Bool, true, false, Option, none, some, List, [], length,
  append-nil, ltb, ltb→lt, if◌then◌else◌, ◌&&◌, Run, ok, ◌>>◌, arith,
}
use app_card.Nanopb.Pb.{PbField, ltype, invalid_field_type, set_error, stream_full}
use app_card.Nanopb.OStream.{
  OStream, Encoder, return_error, pb_write, pb_ostream_sizing, pb_encode_varint, pb_encode_tag,
  pb_encode_tag_for_field, pb_encode_string, wire_type_of,
}
use app_card.Nanopb.OStream.Contract.{Sends, Emits-Sends, measured, pure-Emits, seq-Emits}
use app_card.Nanopb.OStream.Varint.{
  pb_encode_varint-Emits, pb_encode_tag-Emits, pb_encode_string-Emits,
}
use app_card.Nanopb.MessageEncoder.{
  after_sizing, pb_encode_submessage, write_submessage, take_written,
}
use app_card.Nanopb.MessageEncoder.Wire.{Wire, then_bytes, of_bytes, prefixed, tag_bytes, field_tag}

abbrev pub Implements : Encoder → Wire → Type 0
Implements f w = (bs : List ℕ) → w ≡ some bs → Sends f bs

some_injective : {A : Type 0} {x y : A} (u v : Option A) → u ≡ some x → v ≡ some y → u ≡ v → x ≡ y
some_injective u v p q e = cc

pub some-Implements : {f : Encoder} {bs : List ℕ} → Sends f bs → Implements f (some bs)
some-Implements {f} {bs} h cs e = rw (← some_injective (some bs) (some cs) refl refl e) h

pub none-Implements : {f : Encoder} → Implements f none
none-Implements bs e = absurd (ground (arith, e))

pub if-Implements :
    (b : Bool) {x y : Encoder} {u v : Wire}
    → (b ≡ true → Implements x u)
    → (b ≡ false → Implements y v)
    → Implements (if b then x else y) (if b then u else v)
if-Implements true hx hy = hx refl
if-Implements false hx hy = hy refl

pub seq-Implements :
    {f g : Encoder} (u v : Wire)
    → Implements f u
    → Implements g v
    → Implements (f >> g) (then_bytes u v)
seq-Implements none v hf hg = none-Implements
seq-Implements (some a) none hf hg = none-Implements
seq-Implements (some a) (some b) hf hg = some-Implements (seq-Emits (hf a refl) (hg b refl))

pub nothing-Implements : Implements (ok tt) (some [])
nothing-Implements = some-Implements (Emits-Sends pure-Emits)

pub guard-Implements :
    (b : Bool) {f : Encoder} {v : List ℕ}
    → (b ≡ true → Sends f v)
    → Implements f (if b then some v else none)
guard-Implements true h = some-Implements (h refl)
guard-Implements false h = none-Implements

both : (a b : Bool) → a && b ≡ true → (a ≡ true) × (b ≡ true)
both true true h = (refl, refl)
both true false h = absurd (ground (arith, h))
both false b h = absurd (ground (arith, h))

pub tag-Implements :
    (wiretype field_number : ℕ)
    → Implements (pb_encode_tag wiretype field_number) (tag_bytes (some wiretype) field_number)
unfolding tag_bytes
tag-Implements wiretype field_number =
    guard-Implements (ltb wiretype 8 && ltb field_number (2 ^ 32)) λ h.
      let (hw, hf) = both (ltb wiretype 8) (ltb field_number (2 ^ 32)) h in
      Emits-Sends (pb_encode_tag-Emits wiretype field_number (ltb→lt _ _ hw) (ltb→lt _ _ hf))

pub field_tag-Implements :
    (field : PbField) → Implements (pb_encode_tag_for_field field) (field_tag field)
unfolding pb_encode_tag_for_field tag_bytes
field_tag-Implements field = by_type (wire_type_of (ltype field.type))
  where
    by_type :
        (w : Option ℕ)
        → Implements
            (elim w [
              | none ↦ return_error invalid_field_type
              | some wiretype ↦ pb_encode_tag wiretype field.tag
            ])
            (tag_bytes w field.tag)
    by_type none = none-Implements
    by_type (some wiretype) = tag-Implements wiretype field.tag

pub string-Implements :
    (bs : List ℕ) (n : ℕ) → length bs ≡ n → Implements (pb_encode_string bs n) (prefixed bs)
unfolding prefixed
string-Implements bs n size =
    guard-Implements (ltb (length bs) (2 ^ 63))
      λ h. rw (← size) (Emits-Sends (pb_encode_string-Emits bs (small (ltb→lt _ _ h))))
  where
    small : length bs < 2 ^ 63 → length bs < 2 ^ 64
    small h = omega arith

-- The second pass over a submessage: what it sends, and the size that it was announced with.
second_pass :
    (f : Encoder) (e : List ℕ)
    → Sends f e
    → length e < 2 ^ 63
    → Sends (write_submessage f (length e)) e
unfolding write_submessage take_written pb_write
second_pass f e h l = record {
  sizes = λ s c room q. ground arith;
  writes = λ s c room m q.
      rw
        (h.writes (record s { max_size = length e; bytes_written = 0; errmsg = none }) c
          (omega arith) (omega arith) (refl, l))
        (ground arith);
  overflows = λ s c w o m l' q. record {
    after = record s { errmsg = set_error stream_full s.errmsg };
    front = [];
    back = e;
    splits = refl;
    result = ground arith;
    message = refl;
    stored_front = sym (append-nil s.state);
    counted = omega arith;
    within = omega arith;
  };
}

-- What the sizing pass measures.
pub sizing :
    (f : Encoder) (e : List ℕ)
    → Sends f e
    → length e < 2 ^ 64
    → (t : OStream) × (f pb_ostream_sizing ≡ ok tt t) × (t.bytes_written ≡ length e)
unfolding pb_ostream_sizing
sizing f e h l = (
  measured e pb_ostream_sizing,
  h.sizes pb_ostream_sizing refl (omega arith) (refl, omega arith),
  omega arith,
)

after_sizing_lem :
    (r : Run OStream (Unit {0}) (Unit {0})) (t : OStream) (n : ℕ) (k : ℕ → Encoder)
    → r ≡ ok tt t
    → t.bytes_written ≡ n
    → after_sizing r k ≡ k n
after_sizing_lem r t n k e c = ap (λ r'. after_sizing r' k) e ∙ ap k c

-- `pb_encode_submessage` sends the length and the bytes of the message.
pub submessage-Implements :
    (f : Encoder) (w : Wire)
    → Implements f w
    → Implements (pb_encode_submessage f) (of_bytes w prefixed)
unfolding pb_encode_submessage prefixed
submessage-Implements f none h = none-Implements
submessage-Implements f (some e) h = guard-Implements (ltb (length e) (2 ^ 63)) λ fits.
    let l = ltb→lt (length e) (2 ^ 63) fits in
    let sends = h e refl in
    let (t, sized, count) = sizing f e sends (omega arith) in
    rw
      (after_sizing_lem (f pb_ostream_sizing) t (length e)
        (λ size. pb_encode_varint size >> write_submessage f size) sized count)
      (seq-Emits (Emits-Sends (pb_encode_varint-Emits (length e) (omega arith)))
        (second_pass f e sends l))
