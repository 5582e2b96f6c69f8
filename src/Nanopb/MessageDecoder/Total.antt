-- ===== src/Nanopb/MessageDecoder/Total.antt =====
-- The decoding of a message without callbacks and extensions returns on any bytes.
use app_card.Base.{
  ℕ, zero, suc, ◌+◌, ◌<◌, ◌≡◌, ap, ◌∙◌, false, List, [], ◌∷◌, ◌==◌, length, length-append, Run, ok,
  failed, fault, stuck, All, arith,
}
use app_card.Nanopb.Pb.{PbField, ltype, ltype_extension}
use app_card.Nanopb.Memory.{store}
use app_card.Nanopb.IStream.{IStream}
use app_card.Nanopb.IStream.Leaves.{IsInput}
use app_card.Nanopb.FieldIter.{FieldIter, pb_field_iter_begin}
use app_card.Nanopb.FieldIter.Inside.{IsAtField, pb_field_iter_begin-IsAtField}
use app_card.Nanopb.Default.{uninitialised}
use app_card.Nanopb.Decoders.{Input, FieldDecoder}
use app_card.Nanopb.Decoders.Halts.{Halts, Safe, Any, Safe-then, on_memory-Safe}
use app_card.Nanopb.Runtime.{Runtime, Effect, on_memory, whatever}
use app_card.Nanopb.SetDefaults.{pb_message_set_to_defaults}
use app_card.Nanopb.SetDefaults.Returns.{
  IsMessage, Nests, Returns, pb_message_set_to_defaults-Returns,
}
use app_card.Nanopb.Release.Returns.{pb_release-Returns}
use app_card.Nanopb.DecodeField.{MessageDecoder, in_substream}
use app_card.Nanopb.DecodeField.Values.{close_with-Halts, substream-Safe}
use app_card.Nanopb.DecodeExtension.Decodable.{
  Decodable, Decodable-IsPlain, IsDecodable, All-map, IsMessage-map, Decodable-Nests,
}
use app_card.Nanopb.MessageDecoder.{
  decode_loop, at_start, released, init_and_decode, pb_decode_noinit, pb_decode,
  pb_decode_delimited,
}
use app_card.Nanopb.MessageDecoder.Loop.{decode_loop-Halts}

module _ (rt : Runtime) where
  released-Halts :
      (s : IStream) (r : Run Input (Unit {0}) (Unit {0})) (release : Effect)
      → Halts Any s r
      → Returns release
      → Halts Any s (released rt r (on_memory release))
  released-Halts s (ok a t) release h returns = h
  released-Halts s (failed e t) release h returns = let (m', done) = returns t.memory in rw done h
  released-Halts s fault release h returns = h
  released-Halts s stuck release h returns = h

  pub nests :
      (depth : ℕ) (table : List PbField)
      → IsDecodable rt depth table
      → IsMessage (Nests rt depth) table
  nests depth table h =
      IsMessage-map (Decodable rt depth) (Nests rt depth) table (Decodable-Nests rt depth) h.0

  init_and_decode-Safe :
      (noinit : MessageDecoder) (depth links : ℕ) (table : List PbField) (dest : ℕ)
      → Safe Any (noinit table dest)
      → IsDecodable rt depth table
      → Safe Any (init_and_decode rt noinit depth links table dest)
  unfolding init_and_decode
  init_and_decode-Safe noinit depth links table dest h message =
      let inside = nests depth table message in
      Safe-then Any _ _
        (on_memory-Safe (pb_message_set_to_defaults rt depth links table dest)
          λ m. pb_message_set_to_defaults-Returns rt depth links table dest m inside)
        λ s input.
          released-Halts s.stream _ _ (h s input)
            (pb_release-Returns rt depth links table dest inside)

  no_fields : (fs : List PbField) → All (Decodable rt 0) fs → 0 < length fs → ⊥
  unfolding Decodable
  no_fields [] h some_field = omega arith
  no_fields (f ∷ fs) h some_field = h.0

  fields_in :
      (depth : ℕ) (table : List PbField) → (h : IsDecodable rt depth table) → 0 < length h.0.fields
  fields_in depth table (message, some_field) =
      omega (
        arith,
        ap length message.whole,
        length-append message.fields (message.end ∷ []),
        some_field,
      )

  whatever-Halts :
      (P : PbField → Type 0) (table : List PbField) (dest : ℕ) (message : IsMessage P table)
      (k : FieldIter → FieldDecoder) (s : Input)
      → 0 < length message.fields
      → ((to : FieldIter) → IsAtField message.fields message.end to → Halts Any s.stream (k to s))
      → Halts Any s.stream (whatever (pb_field_iter_begin table dest uninitialised) k s)
  whatever-Halts P table dest message k s some_field h =
      let (to, begins, here) =
        pb_field_iter_begin-IsAtField message.fields message.end dest uninitialised message.is_table
          some_field in
      let begins' : pb_field_iter_begin table dest uninitialised ≡ ok tt to =
        ap (λ (x : List PbField). pb_field_iter_begin x dest uninitialised) message.whole
        ∙ begins in
      rw begins' (h to here)

  pub pb_decode_noinit-Safe :
      (depth links : ℕ) (table : List PbField) (dest : ℕ)
      → IsDecodable rt depth table
      → Safe Any (pb_decode_noinit rt depth links table dest)
  unfolding pb_decode_noinit
  pb_decode_noinit-Safe zero links table dest h s input =
      absurd (no_fields h.0.fields h.0.each (fields_in 0 table h))
  pb_decode_noinit-Safe (suc depth) links table dest h s input =
      let message = h.0 in
      let noinit = pb_decode_noinit rt depth links in
      let at = rt.fixed_count_at depth in
      let s' : Input = record s { memory = store 4 0 s.memory at } in
      whatever-Halts (Decodable rt (suc depth)) table dest message
        (λ iter.
          decode_loop rt (init_and_decode rt noinit depth links) noinit (suc depth) links at
            (s.stream.bytes_left + 1) (at_start iter))
        s' (fields_in (suc depth) table h)
        λ to here.
          decode_loop-Halts rt (init_and_decode rt noinit depth links) noinit depth links at
            message.fields message.end message.is_table
            (All-map (Decodable rt (suc depth)) (λ f. (ltype f.type == ltype_extension) ≡ false)
              message.fields (λ f d. (Decodable-IsPlain rt depth f d).no_extension) message.each)
            message.each
            (λ table' dest' h'. (
              init_and_decode-Safe noinit depth links table' dest'
                  (pb_decode_noinit-Safe depth links table' dest' h') h',
              pb_decode_noinit-Safe depth links table' dest' h',
            ))
            (s.stream.bytes_left + 1) (at_start to) s' here input (omega arith)

  -- The table of a message with a field, whose fields are neither callbacks nor extensions, of types
  -- that pb.h has, and whose submessages are such messages again, nested less than `depth` deep; any
  -- memory, wherever the message is and whatever `realloc` and `free` do; any bytes of a buffer
  -- stream whose buffer holds what `bytes_left` promises. `pb_decode` returns without an access
  -- outside the buffer. With success it has taken bytes off the front of the stream, as many as
  -- `bytes_left` went down by, and with failure no more bytes are left to the stream than to its
  -- buffer.
  pub pb_decode-Halts :
      (depth links : ℕ) (fields : List PbField) (dest : ℕ) (s : Input)
      → IsDecodable rt depth fields
      → IsInput s.stream
      → Halts Any s.stream (pb_decode rt depth links fields dest s)
  unfolding pb_decode
  pb_decode-Halts depth links fields dest s h input =
      init_and_decode-Safe (pb_decode_noinit rt depth links) depth links fields dest
        (pb_decode_noinit-Safe depth links fields dest h) h s input

  -- Under the same conditions `pb_decode_delimited` returns without an access outside the buffer,
  -- whatever length is in front of the message and whatever becomes of the message. With success it
  -- has taken bytes off the front of the stream, as many as `bytes_left` went down by, and with
  -- failure no more bytes are left to the stream than to its buffer.
  pub pb_decode_delimited-Halts :
      (depth links : ℕ) (fields : List PbField) (dest : ℕ) (s : Input)
      → IsDecodable rt depth fields
      → IsInput s.stream
      → Halts Any s.stream (pb_decode_delimited rt depth links fields dest s)
  unfolding pb_decode_delimited in_substream
  pb_decode_delimited-Halts depth links fields dest s h =
      substream-Safe _
        (λ u sub t input c.
          close_with-Halts _ c
            (pb_decode-Halts depth links fields dest (record t { stream = sub }) h input))
        s
