-- ===== src/Nanopb/DecodeExtension/Decodable.antt =====
-- Messages without callbacks and extensions, which are decoded on any bytes.
use app_card.Base.{
  ℕ, zero, suc, ◌<◌, ◌≡◌, ◌⊎◌, inl, inr, true, false, List, [], ◌∷◌, ◌==◌, leb, length, All,
}
use app_card.Nanopb.Pb.{
  PbField, atype, ltype, atype_callback, ltype_last_packable, ltype_submessage, ltype_extension,
  ltype_fixed_length_bytes,
}
use app_card.Nanopb.Runtime.{Runtime}
use app_card.Nanopb.SetDefaults.Returns.{IsMessage, Nests}
use app_card.Nanopb.DecodeField.Scalars.{HasItems}

-- A field of a type that pb.h has, with its place in the message or allocated; the item of a
-- packable type has room for its numbers.
pub record IsPlain (f : PbField) : Type 0 where
  pub no_callback : (atype f.type == atype_callback) ≡ false
  pub no_extension : (ltype f.type == ltype_extension) ≡ false
  pub known : leb (ltype f.type) ltype_fixed_length_bytes ≡ true
  pub items : leb (ltype f.type) ltype_last_packable ≡ true → HasItems f

-- Submessages have a field and are nested less than `depth` deep.
unfoldable pub Decodable : Runtime → ℕ → PbField → Type 0
Decodable rt zero f = ⊥
Decodable rt (suc depth) f =
    IsPlain f
    × (((ltype f.type == ltype_submessage) ≡ false)
        ⊎ (IsMessage (Decodable rt depth) (rt.tables f.ptr) × (1 < length (rt.tables f.ptr))))

-- The table of such a message.
abbrev pub IsDecodable : Runtime → ℕ → List PbField → Type 0
IsDecodable rt depth table = IsMessage (Decodable rt depth) table × (1 < length table)

pub All-map :
    (P Q : PbField → Type 0) (fs : List PbField) → ((f : PbField) → P f → Q f) → All P fs → All Q fs
All-map P Q [] g h = tt
All-map P Q (f ∷ fs) g h = (g f h.0, All-map P Q fs g h.1)

pub IsMessage-map :
    (P Q : PbField → Type 0) (table : List PbField)
    → ((f : PbField) → P f → Q f)
    → IsMessage P table
    → IsMessage Q table
IsMessage-map P Q table g message = record {
  fields = message.fields;
  end = message.end;
  whole = message.whole;
  is_table = message.is_table;
  each = All-map P Q message.fields g message.each;
}

module _ (rt : Runtime) where
  pub Decodable-IsPlain : (depth : ℕ) (f : PbField) → Decodable rt (suc depth) f → IsPlain f
  unfolding Decodable
  Decodable-IsPlain depth f h = h.0

  pub Decodable-Nests : (depth : ℕ) (f : PbField) → Decodable rt depth f → Nests rt depth f
  unfolding Decodable
  Decodable-Nests zero f h = h
  Decodable-Nests (suc depth) f (plain, inl other) = (plain.no_extension, inl other)
  Decodable-Nests (suc depth) f (plain, inr message) = (
    plain.no_extension,
    inr (
        IsMessage-map (Decodable rt depth) (Nests rt depth) (rt.tables f.ptr)
          (Decodable-Nests depth) message.0),
  )

  -- What is nested less deep may be nested deeper.
  pub Nests-suc : (depth : ℕ) (f : PbField) → Nests rt depth f → Nests rt (suc depth) f
  Nests-suc zero f h = elim h [ ]
  Nests-suc (suc depth) f (plain, inl other) = (plain, inl other)
  Nests-suc (suc depth) f (plain, inr message) = (
    plain,
    inr (
        IsMessage-map (Nests rt depth) (Nests rt (suc depth)) (rt.tables f.ptr) (Nests-suc depth)
          message),
  )
