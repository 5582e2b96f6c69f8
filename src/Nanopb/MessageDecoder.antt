-- ===== src/Nanopb/MessageDecoder.antt =====
-- nanopb's pb_decode.c: the decoding of whole messages.
pub mod Bits
pub mod Words
pub mod Required
pub mod Counts
pub mod Delimited
pub mod Unknown
pub mod Rounds
pub mod Ends
pub mod Loop
pub mod Total
use app_card.Base.{
  ℕ, zero, suc, ◌+◌, ◌-◌, ◌/◌, ◌%◌, ◌^◌, Bool, true, false, not, ◌&&◌, ◌||◌, Option, none, some,
  length, get_elem?, ◌==◌, ltb, leb, bit_and, bit_or, if◌then◌else◌, Run, ok, failed, fault, stuck,
  Cmd, ◌>>◌, ◌>>=◌, pure,
}
use app_card.Nanopb.Pb.{
  PbField, htype, htype_required, htype_repeated, wrong_size_for_fixed_count_field,
  missing_required_field,
}
use app_card.Nanopb.Memory.{load}
use app_card.Nanopb.IStream.{IStream, Tag, pb_decode_tag, pb_skip_field}
use app_card.Nanopb.FieldIter.{
  FieldIter, pb_field_iter_begin, pb_field_iter_next, pb_field_iter_find,
}
use app_card.Nanopb.Default.{uninitialised}
use app_card.Nanopb.Decoders.{Input, FieldDecoder, lift, write, put}
use app_card.Nanopb.Runtime.{Runtime, on_memory, with_field, whatever, on_result, fail}
use app_card.Nanopb.SetDefaults.{pb_message_set_to_defaults}
use app_card.Nanopb.Release.{pb_release}
use app_card.Nanopb.DecodeField.{MessageDecoder, in_substream}
use app_card.Nanopb.DecodeExtension.{find_extension_field, decode_field, decode_extension}

-- PB_MAX_REQUIRED_FIELDS.
abbrev pub pb_max_required_fields : ℕ
pb_max_required_fields = 64

-- `fields_seen`, two words of 32 bits.
pub record Seen : Type 0 where
  pub low : ℕ
  pub high : ℕ

-- `fields_seen[index >> 5] |= (uint32_t)1 << (index & 31)`
unfoldable pub mark : ℕ → Seen → Seen
mark index seen =
    let tmp = 2 ^ bit_and index 31 % 2 ^ 32 in
    if index / 2 ^ 5 == 0
    then record seen { low = bit_or seen.low tmp }
    else record seen { high = bit_or seen.high tmp }

abbrev pub allbits : ℕ
allbits = 2 ^ 32 - 1

abbrev pub word : Seen → ℕ → ℕ
word seen i = if i == 0 then seen.low else seen.high

-- The checks of `fields_seen`: of the first words, and of the remaining bits.
unfoldable pub whole_words : ℕ → Seen → Bool
whole_words zero seen = true
whole_words (suc i) seen = whole_words i seen && word seen i == allbits

unfoldable pub all_seen : ℕ → Seen → Bool
unfolding whole_words
all_seen count seen =
    whole_words (count / 2 ^ 5) seen
    && (bit_and count 31 == 0 || word seen (count / 2 ^ 5) == allbits / 2 ^ (32 - bit_and count 31))

-- The locals of `pb_decode_noinit`, less `fixed_count_size`, which the iterator points to. The
-- pointer `fixed_count_field` is an index in the table.
pub record Progress : Type 0 where
  pub iter : FieldIter
  pub seen : Seen
  pub extension_range_start : ℕ
  pub fixed_count_field : Option ℕ

-- The number of required fields, less the last field's: the loop seeks to the end of the table.
pub record End : Type 0 where
  pub iter : FieldIter
  pub req_field_count : ℕ
  pub last_type : ℕ

unfoldable pub seek_end :
    {A : Type 0} → (End → Cmd Input (Unit {0}) A) → ℕ → FieldIter → Cmd Input (Unit {0}) A
seek_end k zero iter s = stuck
seek_end k (suc fuel) iter s =
    with_field (get_elem? iter.start iter.pos)
      (λ f. on_result (pb_field_iter_next iter) (seek_end k fuel) λ iter'.
        k (record {
          iter = iter';
          req_field_count = iter.required_field_index;
          last_type = f.type;
        }))
      s

-- The fixup for the last field, and the limit.
abbrev pub required_count : End → PbField → ℕ
required_count end f =
    let count =
      if htype end.last_type == htype_required && not (f.tag == 0)
      then (end.req_field_count + 1) % 2 ^ 32
      else end.req_field_count in
    if ltb pb_max_required_fields count then pb_max_required_fields else count

unfoldable pub check_required : Seen → End → FieldDecoder
unfolding all_seen
check_required seen end = with_field (get_elem? end.iter.start end.iter.pos) λ f.
    let count = required_count end f in
    if ltb 0 count && not (all_seen count seen) then fail missing_required_field else write (λ m. m)

-- `fixed_count_field != NULL && fixed_count_size != fixed_count_field->array_size`
abbrev pub is_short : Option ℕ → FieldIter → ℕ → Input → Bool
is_short none iter at s = false
is_short (some pos) iter at s = short (get_elem? iter.start pos)
  where
    short : Option PbField → Bool
    short none = false
    short (some f) = not (load 4 s.memory at == f.array_size)

-- `fixed_count_field == iter.pos`
abbrev pub is_field : Option ℕ → ℕ → Bool
is_field none pos = false
is_field (some field) pos = field == pos

-- What a round of the loop does: it goes on, or the end of the message was found.
pub data Step : Type 0 where
  goes_on : Progress → Step
  at_end : Progress → Step

abbrev pub with_tag :
    Run IStream Bool Tag
    → Cmd Input (Unit {0}) Step
    → (Tag → Cmd Input (Unit {0}) Step)
    → Cmd Input (Unit {0}) Step
with_tag (ok a t) end k s = k a (record s { stream = t })
with_tag (failed true t) end k s = end (record s { stream = t })
with_tag (failed false t) end k s = failed tt (record s { stream = t })
with_tag fault end k s = fault
with_tag stuck end k s = stuck

abbrev pub skip : ℕ → Progress → Cmd Input (Unit {0}) Step
skip wire_type p = lift (pb_skip_field wire_type) >> pure (goes_on p)

-- A required field is marked as seen.
abbrev pub note_required : PbField → FieldIter → Seen → Seen
note_required f iter seen =
    if htype f.type == htype_required && ltb iter.required_field_index pb_max_required_fields
    then mark iter.required_field_index seen
    else seen

-- The local `fixed_count_size` of the frame is at `fixed_count_at`.
module _ (rt : Runtime) (message message_noinit : MessageDecoder)
    (depth links fixed_count_at : ℕ) where
  -- A field with a tag that no field of the message has, where the message has an extension range
  -- from `extension_range_start` on.
  unfoldable pub in_range : Tag → Progress → Cmd Input (Unit {0}) Step
  unfolding decode_extension
  in_range t p s =
      (if not (leb p.extension_range_start t.tag)
          then skip t.wire_type p
          else decode_extension rt message message_noinit depth links t.tag t.wire_type p.iter
            >> (λ s'.
                (if not (s.stream.bytes_left == s'.stream.bytes_left)
                    then pure (goes_on p)
                    else skip t.wire_type p)
                  s'))
        s

  unfoldable pub decode_unknown : Tag → Progress → Cmd Input (Unit {0}) Step
  unfolding find_extension_field in_range
  decode_unknown t p =
      if not (leb p.extension_range_start t.tag)
      then skip t.wire_type p
      else on_result (find_extension_field p.iter)
          (λ iter.
            with_field (get_elem? iter.start iter.pos)
              λ f. in_range t (record p { iter = iter; extension_range_start = f.tag }))
          (λ iter. in_range t (record p { iter = iter; extension_range_start = 2 ^ 32 - 1 }))

  -- The count of a repeated field without one in the message is `fixed_count_size`.
  unfoldable pub with_fixed_count :
      PbField → Progress → (Progress → Cmd Input (Unit {0}) Step) → Cmd Input (Unit {0}) Step
  with_fixed_count f p k s =
      let counted : Progress =
        let iter = p.iter in
        record p {
          iter = record iter { p_size = fixed_count_at };
          fixed_count_field = some p.iter.pos;
        } in
      (if not (htype f.type == htype_repeated && p.iter.p_size == p.iter.p_data)
          then k p
          else if is_field p.fixed_count_field p.iter.pos
          then k counted
          else if is_short p.fixed_count_field p.iter fixed_count_at s
          then fail wrong_size_for_fixed_count_field
          else put 4 0 fixed_count_at >> k counted)
        s

  unfoldable pub decode_known : Tag → Progress → Cmd Input (Unit {0}) Step
  unfolding with_fixed_count mark decode_field
  decode_known t p = with_field (get_elem? p.iter.start p.iter.pos) λ f. with_fixed_count f p λ q.
      decode_field rt message message_noinit depth links t.wire_type q.iter >>= λ iter.
      pure (goes_on (record q { iter = iter; seen = note_required f q.iter q.seen }))

  -- A round of the loop. A search that fails leaves the iterator where it stands.
  unfoldable pub decode_round : Progress → Cmd Input (Unit {0}) Step
  unfolding decode_unknown decode_known
  decode_round p s =
      with_tag (pb_decode_tag s.stream) (pure (at_end p))
        (λ t.
          on_result (pb_field_iter_find t.tag p.iter)
            (λ iter. decode_known t (record p { iter = iter }))
            (λ iter. decode_unknown t (record p { iter = iter })))
        s

  -- The checks behind the loop.
  unfoldable pub finish : Progress → FieldDecoder
  unfolding check_required seek_end
  finish p s =
      (if is_short p.fixed_count_field p.iter fixed_count_at s
          then fail wrong_size_for_fixed_count_field
          else seek_end (check_required p.seen) (length p.iter.start) p.iter)
        s

  -- Each round takes a byte.
  unfoldable pub decode_loop : ℕ → Progress → FieldDecoder
  unfolding decode_round finish
  decode_loop zero p s = stuck
  decode_loop (suc fuel) p s =
      let after : Step → FieldDecoder = next (decode_loop fuel) in
      (if s.stream.bytes_left == 0 then finish p else decode_round p >>= after) s
    where
      next : (Progress → FieldDecoder) → Step → FieldDecoder
      next loop (goes_on q) = loop q
      next loop (at_end q) = finish q

abbrev pub at_start : FieldIter → Progress
at_start iter = record {
  iter = iter;
  seen = record { low = 0; high = 0 };
  extension_range_start = 0;
  fixed_count_field = none;
}

module _ (rt : Runtime) where
  abbrev pub released :
      Run Input (Unit {0}) (Unit {0}) → FieldDecoder → Run Input (Unit {0}) (Unit {0})
  released (ok a s) release = ok a s
  released (failed e s) release = (release >> (λ t. failed e t)) s
  released fault release = fault
  released stuck release = stuck

  -- `pb_decode`, where `noinit` is `pb_decode_noinit`.
  unfoldable pub init_and_decode : MessageDecoder → ℕ → ℕ → MessageDecoder
  unfolding pb_message_set_to_defaults pb_release
  init_and_decode noinit depth links fields dest_struct =
      on_memory (pb_message_set_to_defaults rt depth links fields dest_struct) >> (λ s.
        released (noinit fields dest_struct s)
          (on_memory (pb_release rt depth links fields dest_struct)))

  -- Messages and extensions are nested less than `depth` deep, and lists of extensions have at most
  -- `links`; that is also how often a callback may be called in one field.
  unfoldable pub pb_decode_noinit : ℕ → ℕ → MessageDecoder
  unfolding init_and_decode decode_loop
  pb_decode_noinit zero links fields dest_struct s = stuck
  pb_decode_noinit (suc depth) links fields dest_struct s =
      let noinit = pb_decode_noinit depth links in
      let at = rt.fixed_count_at depth in
      (put 4 0 at
          >> whatever (pb_field_iter_begin fields dest_struct uninitialised) λ iter.
            decode_loop rt (init_and_decode noinit depth links) noinit (suc depth) links at
              (s.stream.bytes_left + 1) (at_start iter))
        s

  unfoldable pub pb_decode : ℕ → ℕ → MessageDecoder
  unfolding init_and_decode pb_decode_noinit
  pb_decode depth links = init_and_decode (pb_decode_noinit depth links) depth links

  unfoldable pub pb_decode_delimited_noinit : ℕ → ℕ → MessageDecoder
  unfolding pb_decode_noinit in_substream
  pb_decode_delimited_noinit depth links fields dest_struct =
      in_substream (pb_decode_noinit depth links fields dest_struct)

  unfoldable pub pb_decode_delimited : ℕ → ℕ → MessageDecoder
  unfolding pb_decode in_substream
  pb_decode_delimited depth links fields dest_struct =
      in_substream (pb_decode depth links fields dest_struct)

  unfoldable pub pb_decode_nullterminated : ℕ → ℕ → MessageDecoder
  unfolding pb_decode
  pb_decode_nullterminated depth links fields dest_struct = pb_decode depth links fields dest_struct
