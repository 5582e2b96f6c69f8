-- ===== src/Nanopb/DecodeExtension.antt =====
-- nanopb's pb_decode.c: callback fields, the choice between the kinds of allocation, and extensions.
pub mod Find
pub mod Decodable
pub mod Fields
use app_card.Base.{
  ℕ, zero, suc, not, ◌||◌, length, get_elem?, ◌==◌, if◌then◌else◌, Run, ok, failed, fault, stuck,
  Cmd, ◌>>◌, ◌>>=◌, pure,
}
use app_card.Nanopb.Pb.{
  PbField, atype, htype, ltype, atype_static, atype_callback, atype_pointer, htype_oneof,
  ltype_extension, wt_string, callback_failed, invalid_field_type,
}
use app_card.Nanopb.IStream.{IStream, pb_istream_from_buffer, pb_skip_field}
use app_card.Nanopb.Substream.{read_raw_value, pb_make_string_substream, pb_close_string_substream}
use app_card.Nanopb.FieldIter.{FieldIter, Iteration, pb_field_iter_next, either_way}
use app_card.Nanopb.FieldIter as Iter
use app_card.Nanopb.Environment.{
  load_ptr, callback_funcs, callback_arg, extension_type, extension_next, extension_found_at,
  type_decode, type_arg,
}
use app_card.Nanopb.Decoders.{Input, FieldDecoder, on_stream, lift, write, put}
use app_card.Nanopb.Runtime.{Runtime, with_field, whatever, fail}
use app_card.Nanopb.SetDefaults.{iter_from_extension, pb_message_set_to_defaults}
use app_card.Nanopb.Release.{pb_release_single_field, pb_release_union_field}
use app_card.Nanopb.DecodeField.{MessageDecoder, pb_decoders, decode_static_field}
use app_card.Nanopb.DecodePointer.{decode_pointer_field}

-- The step through a table until there is an extension field, or the iterator is at `start` again.
unfoldable pub find_extension_loop : ℕ → ℕ → Iteration
find_extension_loop zero start iter = stuck
find_extension_loop (suc fuel) start iter =
    Iter.with_field (get_elem? iter.start iter.pos)
      (λ f it.
        if ltype f.type == ltype_extension
        then ok tt it
        else either_way (pb_field_iter_next it)
            λ it'. (if it'.pos == start then failed tt else find_extension_loop fuel start) it')
      iter

unfoldable pub find_extension_field : Iteration
unfolding find_extension_loop
find_extension_field iter = find_extension_loop (length iter.start) iter.pos iter

-- The calls on a string's substream. The failure of a call leaves the stream as it was before the
-- substream, with a message.
abbrev pub or_callback_failed :
    IStream → Run Input (Unit {0}) (Unit {0}) → (FieldDecoder) → Run Input (Unit {0}) (Unit {0})
or_callback_failed stream (ok a s) k = k s
or_callback_failed stream (failed e s) k = fail callback_failed (record s { stream = stream })
or_callback_failed stream fault k = fault
or_callback_failed stream stuck k = stuck

-- The user's function in the substream of a scalar.
abbrev pub give_back : IStream → Run Input (Unit {0}) (Unit {0}) → Run Input (Unit {0}) (Unit {0})
give_back stream (ok a s) = ok a (record s { stream = stream })
give_back stream (failed e s) = failed e (record s { stream = stream })
give_back stream fault = fault
give_back stream stuck = stuck

module _ (rt : Runtime) where
  -- The function is looked up in each round, and called until the substream is at its end. The fuel
  -- is the number of calls.
  unfoldable pub callback_loop : PbField → ℕ → IStream → ℕ → FieldDecoder
  callback_loop f p_data stream zero s = stuck
  callback_loop f p_data stream (suc calls) s =
      or_callback_failed stream
        (rt.decode (callback_funcs s.memory p_data) f (callback_arg p_data) s)
        λ t.
          (if not (t.stream.bytes_left == 0)
              then callback_loop f p_data stream calls
              else (λ u. on_stream u.memory (pb_close_string_substream u.stream stream)))
            t

  unfoldable pub decode_callback_field : ℕ → ℕ → PbField → FieldIter → FieldDecoder
  unfolding callback_loop
  decode_callback_field calls wire_type f iter s =
      (if iter.p_data == 0 || callback_funcs s.memory iter.p_data == 0
          then lift (pb_skip_field wire_type)
          else if wire_type == wt_string
          then (lift pb_make_string_substream >>= λ substream t.
              callback_loop f iter.p_data t.stream calls (record t { stream = substream }))
          else lift (read_raw_value wire_type 10) >>= λ buffer t. give_back t.stream (
              rt.decode (callback_funcs t.memory iter.p_data) f (callback_arg iter.p_data)
                (record t { stream = pb_istream_from_buffer buffer (length buffer) })))
        s

  module _ (message message_noinit : MessageDecoder) (depth links : ℕ) where
    -- The choice by allocation, at the field `f`.
    unfoldable pub decode_allocated : ℕ → PbField → FieldIter → FieldDecoder
    unfolding decode_static_field decode_pointer_field decode_callback_field
    decode_allocated wire_type f iter =
        let func = pb_decoders rt message message_noinit (ltype f.type) in
        let defaults = pb_message_set_to_defaults rt depth links in
        if atype f.type == atype_static
        then decode_static_field rt defaults func wire_type f iter
        else if atype f.type == atype_pointer
        then decode_pointer_field rt defaults (pb_release_single_field rt depth links) func
            wire_type f iter
        else if atype f.type == atype_callback
        then decode_callback_field links wire_type f iter
        else fail invalid_field_type

    -- The value is the iterator.
    unfoldable pub decode_field : ℕ → FieldIter → Cmd Input (Unit {0}) FieldIter
    unfolding decode_allocated pb_release_union_field
    decode_field wire_type iter = with_field (get_elem? iter.start iter.pos) λ f.
        (if htype f.type == htype_oneof
          then pb_release_union_field rt depth links iter
          else pure iter)
        >>= λ iter'.
            with_field (get_elem? iter'.start iter'.pos)
              λ f'. decode_allocated wire_type f' iter' >> pure iter'

    unfoldable pub default_extension_decoder : ℕ → ℕ → ℕ → FieldDecoder
    unfolding decode_field iter_from_extension
    default_extension_decoder extension tag wire_type s =
        with_field (get_elem? (rt.tables (type_arg s.memory (extension_type s.memory extension))) 0)
          (λ f t.
            (if not (f.tag == tag)
                then write (λ m. m)
                else whatever (iter_from_extension rt t.memory extension) λ iter.
                  put 1 1 (extension_found_at extension)
                  >> decode_field wire_type iter
                  >> write (λ m. m))
              t)
          s

    abbrev pub try_extension : ℕ → ℕ → ℕ → FieldDecoder
    try_extension extension tag wire_type s =
        let function = type_decode s.memory (extension_type s.memory extension) in
        (if function == 0
            then default_extension_decoder extension tag wire_type
            else rt.decode_extension function extension tag wire_type)
          s

    -- The loop over the list of extensions, until one has read from the stream.
    unfoldable pub decode_extension_loop : ℕ → ℕ → ℕ → ℕ → ℕ → FieldDecoder
    unfolding default_extension_decoder
    decode_extension_loop pos tag wire_type zero extension s =
        if extension == 0 || not (pos == s.stream.bytes_left) then ok tt s else stuck
    decode_extension_loop pos tag wire_type (suc left) extension s =
        (if extension == 0 || not (pos == s.stream.bytes_left)
            then ok tt
            else (try_extension extension tag wire_type >> (λ t.
                decode_extension_loop pos tag wire_type left (extension_next t.memory extension)
                  t)))
          s

    unfoldable pub decode_extension : ℕ → ℕ → FieldIter → FieldDecoder
    unfolding decode_extension_loop
    decode_extension tag wire_type iter s =
        decode_extension_loop s.stream.bytes_left tag wire_type links
          (load_ptr s.memory iter.p_data) s
