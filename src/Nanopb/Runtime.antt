-- ===== src/Nanopb/Runtime.antt =====
-- What the decoder finds outside the program: the descriptor tables, the functions of the user, the
-- memory allocator and the stack.
use app_card.Base.{ℕ, Option, none, some, List, Run, ok, failed, fault, stuck, Cmd}
use app_card.Nanopb.Pb.{ErrMsg, set_error, PbField}
use app_card.Nanopb.Memory.{Memory, store}
use app_card.Nanopb.FieldIter.{FieldIter}
use app_card.Nanopb.Decoders.{Input, FieldDecoder}

-- `decode` is the function at an address of pb_callback_t, called with the field and `&arg`;
-- `decode_extension` is one of pb_extension_type_t, called with the extension, the tag and the wire
-- type. `realloc` gives the pointer that it returns, 0 for NULL, and the memory with what was kept
-- of the old block; `free` the memory after it. `fixed_count_at` is where the local
-- `fixed_count_size` of `pb_decode_noinit` stands, by how deep messages may still be nested.
pub record Runtime : Type 0 where
  pub tables : ℕ → List PbField
  pub decode : ℕ → PbField → ℕ → FieldDecoder
  pub decode_extension : ℕ → ℕ → ℕ → ℕ → FieldDecoder
  pub realloc : ℕ → ℕ → Memory → ℕ × Memory
  pub free : ℕ → Memory → Memory
  pub fixed_count_at : ℕ → ℕ

-- A function that returns nothing and changes the memory.
abbrev pub Effect : Type 0
Effect = Cmd Memory (Unit {0}) (Unit {0})

abbrev pub change : (Memory → Memory) → Effect
change f m = ok tt (f m)

-- `*p = v`, for a number of `n` bytes.
abbrev pub assign : ℕ → ℕ → ℕ → Effect
assign n v p = change (λ m. store n v m p)

abbrev pub on_memory : Effect → FieldDecoder
on_memory e s = moved s (e s.memory)
  where
    moved : Input → Run Memory (Unit {0}) (Unit {0}) → Run Input (Unit {0}) (Unit {0})
    moved s (ok a m) = ok tt (record s { memory = m })
    moved s (failed e m) = failed tt (record s { memory = m })
    moved s fault = fault
    moved s stuck = stuck

-- The current field of an iterator.
abbrev pub with_field :
    {S A : Type 0} → Option PbField → (PbField → Cmd S (Unit {0}) A) → Cmd S (Unit {0}) A
with_field none k s = fault
with_field (some f) k s = k f s

-- A call on an iterator whose result is not used, and one whose result is.
abbrev pub whatever :
    {S A : Type 0}
    → Run FieldIter (Unit {0}) (Unit {0})
    → (FieldIter → Cmd S (Unit {0}) A)
    → Cmd S (Unit {0}) A
whatever (ok a iter) k s = k iter s
whatever (failed e iter) k s = k iter s
whatever fault k s = fault
whatever stuck k s = stuck

abbrev pub on_result :
    {S A : Type 0}
    → Run FieldIter (Unit {0}) (Unit {0})
    → (FieldIter → Cmd S (Unit {0}) A)
    → (FieldIter → Cmd S (Unit {0}) A)
    → Cmd S (Unit {0}) A
on_result (ok a iter) k l s = k iter s
on_result (failed e iter) k l s = l iter s
on_result fault k l s = fault
on_result stuck k l s = stuck

-- PB_RETURN_ERROR, in a function with a value.
abbrev pub fail : {A : Type 0} → ErrMsg → Cmd Input (Unit {0}) A
fail msg s =
    let t = s.stream in
    failed tt (record s { stream = record t { errmsg = set_error msg t.errmsg } })
