-- ===== src/Nanopb/DecodePointer.antt =====
-- nanopb's pb_decode.c: the decoding of fields that are allocated while the message is decoded.
pub mod Fields
use app_card.Base.{
  ℕ, zero, suc, ◌+◌, ◌-◌, ◌/◌, ◌%◌, ◌^◌, Bool, true, false, not, ◌&&◌, ◌||◌, some, List, ◌==◌, ltb,
  if◌then◌else◌, Run, ok, failed, fault, stuck, Cmd, ◌>>◌, ◌>>=◌,
}
use app_card.Nanopb.Pb.{
  PbField, htype, ltype, htype_repeated, htype_oneof, ltype_bytes, ltype_string, ltype_submessage,
  pb_size_max, too_many_array_entries,
}
use app_card.Nanopb.Memory.{Memory, load, clear}
use app_card.Nanopb.IStream.{IStream}
use app_card.Nanopb.Substream.{pb_make_string_substream}
use app_card.Nanopb.FieldIter.{FieldIter}
use app_card.Nanopb.Environment.{load_ptr}
use app_card.Nanopb.Decoders.{Input, FieldDecoder, lift, write, put, allocate_field}
use app_card.Nanopb.Runtime.{Runtime, Effect, change, assign, on_memory, fail}
use app_card.Nanopb.DecodeField.{ValueDecoder, close_with, count_up, item_at, is_packed}

-- How many entries to reserve, where there are `allocated` and `left` bytes are still to be decoded.
abbrev pub grown : ℕ → ℕ → ℕ → ℕ
grown allocated left data_size =
    let remain = ((left - 1) / data_size + 1) % 2 ^ 64 in
    if ltb remain ((pb_size_max + 2 ^ 64 - allocated) % 2 ^ 64)
    then (allocated + remain) % 2 ^ 64
    else (allocated + 1) % 2 ^ 64

-- A failure that is not "too many array entries".
abbrev pub otherwise : FieldDecoder → Cmd Input Bool (Unit {0})
otherwise d s = told (d s)
  where
    told : Run Input (Unit {0}) (Unit {0}) → Run Input Bool (Unit {0})
    told (ok a t) = ok a t
    told (failed e t) = failed false t
    told fault = fault
    told stuck = stuck

module _ (rt : Runtime) where
  -- `defaults` is `pb_message_set_to_defaults`.
  unfoldable pub initialize_pointer_field : (List PbField → ℕ → Effect) → PbField → ℕ → Effect
  initialize_pointer_field defaults f item =
      if ltype f.type == ltype_string || ltype f.type == ltype_bytes
      then assign 8 0 item
      else if ltype f.type == ltype_submessage
      then change (λ m. clear f.data_size m item) >> defaults (rt.tables f.ptr) item
      else ok tt

  -- The entry behind the last, `p_data` being the place of the pointer to the array.
  abbrev pub entry_at : PbField → FieldIter → Memory → ℕ
  entry_at f iter m = item_at f (load_ptr m iter.p_data) (load 4 m iter.p_size)

  -- The loop over a packed array, where there are `allocated` entries. Each round takes a byte. A
  -- failure says whether it is "too many array entries". A `data_size` of 0 is divided by.
  unfoldable pub packed_pointer_loop :
      (List PbField → ℕ → Effect)
      → ValueDecoder
      → PbField
      → FieldIter
      → ℕ
      → ℕ
      → Cmd Input Bool (Unit {0})
  unfolding initialize_pointer_field
  packed_pointer_loop defaults func f iter zero allocated s = stuck
  packed_pointer_loop defaults func f iter (suc fuel) allocated s =
      let size = load 4 s.memory iter.p_size in
      let full = ltb allocated (size + 1) in
      let allocated' =
        if full then grown allocated s.stream.bytes_left f.data_size else allocated in
      let reserve : FieldDecoder =
        if not full
        then write (λ m. m)
        else if f.data_size == 0
        then (λ t. fault)
        else allocate_field rt.realloc iter.p_data f.data_size allocated' in
      let entry : FieldDecoder = λ t.
        (on_memory (initialize_pointer_field defaults f (entry_at f iter t.memory))
            >> func f (entry_at f iter t.memory)
            >> count_up iter.p_size)
          t in
      (if s.stream.bytes_left == 0
          then ok tt
          else if size == pb_size_max
          then failed true
          else (otherwise (reserve >> entry)
              >> packed_pointer_loop defaults func f iter fuel allocated'))
        s

  -- The end of a packed array: closing the substream replaces the message, if it succeeds.
  abbrev pub packed_pointer_end :
      IStream → Run Input Bool (Unit {0}) → Run Input (Unit {0}) (Unit {0})
  packed_pointer_end stream (ok a s) = close_with stream (ok a s)
  packed_pointer_end stream (failed true s) =
      close_with (record stream { errmsg = some too_many_array_entries }) (failed tt s)
  packed_pointer_end stream (failed false s) = close_with stream (failed tt s)
  packed_pointer_end stream fault = fault
  packed_pointer_end stream stuck = stuck

  unfoldable pub decode_packed_pointer :
      (List PbField → ℕ → Effect) → ValueDecoder → PbField → FieldIter → FieldDecoder
  unfolding packed_pointer_loop
  decode_packed_pointer defaults func f iter s =
      let allocated = load 4 s.memory iter.p_size in
      (lift pb_make_string_substream >>= λ substream t. packed_pointer_end t.stream (
          packed_pointer_loop defaults func f iter (substream.bytes_left + 1) allocated
            (record t { stream = substream })))
        s

  -- One entry of an array.
  unfoldable pub decode_entry :
      (List PbField → ℕ → Effect) → ValueDecoder → PbField → FieldIter → FieldDecoder
  unfolding initialize_pointer_field
  decode_entry defaults func f iter s =
      let size = load 4 s.memory iter.p_size in
      let entry : FieldDecoder = λ t.
        let item = entry_at f iter t.memory in
        (count_up iter.p_size
            >> on_memory (initialize_pointer_field defaults f item)
            >> func f item)
          t in
      (if size == pb_size_max
          then fail too_many_array_entries
          else allocate_field rt.realloc iter.p_data f.data_size ((size + 1) % 2 ^ 32) >> entry)
        s

  -- A field that is not repeated. `release` is `pb_release_single_field`.
  unfoldable pub decode_single :
      (List PbField → ℕ → Effect)
      → (FieldIter → Effect)
      → ValueDecoder
      → PbField
      → FieldIter
      → FieldDecoder
  unfolding initialize_pointer_field
  decode_single defaults release func f iter =
      (λ s.
        (if ltype f.type == ltype_submessage && not (load_ptr s.memory iter.p_data == 0)
            then on_memory (release iter)
            else write (λ m. m))
          s)
      >> (if htype f.type == htype_oneof then put 4 f.tag iter.p_size else write (λ m. m))
      >> (if ltype f.type == ltype_string || ltype f.type == ltype_bytes
          then func f iter.p_data
          else allocate_field rt.realloc iter.p_data f.data_size 1
            >> (λ s.
                (on_memory (initialize_pointer_field defaults f (load_ptr s.memory iter.p_data))) s)
            >> (λ s. func f (load_ptr s.memory iter.p_data) s))

  unfoldable pub decode_pointer_field :
      (List PbField → ℕ → Effect)
      → (FieldIter → Effect)
      → ValueDecoder
      → ℕ
      → PbField
      → FieldIter
      → FieldDecoder
  unfolding decode_packed_pointer decode_entry decode_single
  decode_pointer_field defaults release func wire_type f iter =
      if not (htype f.type == htype_repeated)
      then decode_single defaults release func f iter
      else if is_packed wire_type f
      then decode_packed_pointer defaults func f iter
      else decode_entry defaults func f iter
