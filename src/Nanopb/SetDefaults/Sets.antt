-- ===== src/Nanopb/SetDefaults/Sets.antt =====
-- `pb_message_set_to_defaults` gives the fields of a message their default values, submessages
-- included, and writes nowhere else.
use app_card.Base.{ℕ, zero, suc, ◌≤◌, refl, inl, inr, Bool-cases, List, ◌==◌, arith}
use app_card.Nanopb.Pb.{PbField, atype, atype_static, atype_pointer}
use app_card.Nanopb.Memory.{Memory}
use app_card.Nanopb.Memory.Fills.{Outside}
use app_card.Nanopb.FieldIter.{FieldIter}
use app_card.Nanopb.Runtime.{Runtime}
use app_card.Nanopb.SetDefaults.{over_message, pb_field_set_to_default, pb_message_set_to_defaults}
use app_card.Nanopb.SetDefaults.Layout.{stop, StandsBehind, LaidOut, Leaves, over_message-Leaves}
use app_card.Nanopb.SetDefaults.Defaults.{IsPlaced, Placed, EachField, Default, Default-local}
use app_card.Nanopb.SetDefaults.Kinds.{default_static-Leaves, default_pointer-Leaves}

Placed-IsPlaced :
    (rt : Runtime) (lo hi depth b : ℕ) (f : PbField)
    → Placed rt lo hi depth b f
    → IsPlaced lo hi b f
Placed-IsPlaced rt lo hi zero b f h = absurd h
Placed-IsPlaced rt lo hi (suc depth) b f h = h.0

module _ (rt : Runtime) (c : Memory) (lo hi links : ℕ) where
  table-Leaves :
      (depth : ℕ)
      → ((b : ℕ) (f : PbField) (it : FieldIter) (m : Memory)
          → StandsBehind b f it
          → Placed rt lo hi depth b f
          → lo ≤ b
          → stop b f ≤ hi
          → Outside lo hi c m
          → Leaves
              (pb_field_set_to_default rt depth links it)
              (Default rt c depth b f)
              b
              (stop b f)
              m)
      → (table : List PbField) (b e : ℕ) (m : Memory) → LaidOut (Placed rt lo hi depth) table b e
      → lo ≤ b
      → e ≤ hi
      → Outside lo hi c m
      → Leaves
          (over_message (pb_field_set_to_default rt depth links) table b)
          (EachField (Default rt c depth) table b)
          b
          e
          m
  table-Leaves depth visits table b e m h above below keeps =
      let (m', done, each, outside) =
        over_message-Leaves (Placed rt lo hi depth) (Default rt c depth) c lo hi
          (pb_field_set_to_default rt depth links)
          (λ a f q. (Placed-IsPlaced rt lo hi depth a f q).no_oneof)
          (λ a f q. (Placed-IsPlaced rt lo hi depth a f q).fits) visits
          (λ a f m1 m2 q. Default-local rt c lo hi depth a f m1 m2 q) table b e m h above below
          keeps in
      (m', done, record { fields = h.fields; end = h.end; whole = h.whole; each = each }, outside)

  field-Leaves :
      (depth b : ℕ) (f : PbField) (it : FieldIter) (m : Memory)
      → StandsBehind b f it
      → Placed rt lo hi depth b f
      → lo ≤ b
      → stop b f ≤ hi
      → Outside lo hi c m
      → Leaves (pb_field_set_to_default rt depth links it) (Default rt c depth b f) b (stop b f) m
  unfolding pb_field_set_to_default
  field-Leaves zero b f it m stands placed above below keeps = absurd placed
  field-Leaves (suc depth) b f it m stands placed above below keeps =
      let message = over_message (pb_field_set_to_default rt depth links) in
      let sets = table-Leaves depth (λ a g it' m' s p. field-Leaves depth a g it' m' s p) in
      let plain = placed.0.no_extension in
      elim (Bool-cases (atype f.type == atype_static)) [
        | inl e ↦
            let (m', done, holds, outside) =
              default_static-Leaves rt c lo hi depth message sets b f placed above below it m stands
                e keeps in
            (m', rw (stands.current, plain, e) done, holds, outside)
        | inr e ↦ elim (Bool-cases (atype f.type == atype_pointer)) [
          | inl p ↦
              let (m', done, holds, outside) =
                default_pointer-Leaves rt c lo hi depth message sets b f placed above below it m
                  stands p in
              (m', rw (stands.current, plain, e, p) done, holds, outside)
          | inr p ↦ (
            m,
            rw (stands.current, plain, e, p) refl,
            record {
              pointer = λ p'. absurd (ground (arith, p, p'));
              pointer_count = λ p'. absurd (ground (arith, p, p'));
              flag = λ e'. absurd (ground (arith, e, e'));
              count = λ e'. absurd (ground (arith, e, e'));
              value = λ e'. absurd (ground (arith, e, e'));
            },
            λ x o. refl,
          )
        ]
      ]

-- A message at `dest` that ends at `e`, with its fields one after the other, below 2 ^ 64, none an
-- extension or of a union, the flag of a field, if it has one, in the gap in front of it and the
-- count of an array there or in the array, submessages laid out in the same way in their fields and
-- nested less than `depth` deep, and the default values of the table elsewhere. On any memory
-- `pb_message_set_to_defaults` returns and writes to no byte but those from `dest` up to `e`. Each
-- field then has its default: the flag of an optional field is false, the count of an array is 0, an
-- allocated field is NULL, and another field in the structure, whether or not it is optional, is its
-- default value of the table, 0 if it has none, or a submessage with its defaults.
pub pb_message_set_to_defaults-Default :
    (rt : Runtime) (depth links dest e : ℕ) (table : List PbField) (m : Memory)
    → LaidOut (Placed rt dest e depth) table dest e
    → Leaves
        (pb_message_set_to_defaults rt depth links table dest)
        (EachField (Default rt m depth) table dest)
        dest
        e
        m
unfolding pb_message_set_to_defaults
pb_message_set_to_defaults-Default rt depth links dest e table m h =
    table-Leaves rt m dest e links depth (field-Leaves rt m dest e links depth) table dest e m h
      (omega arith) (omega arith) (λ x o. refl)
